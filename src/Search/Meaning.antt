-- ===== src/Search/Meaning.antt =====
-- What a query of frontend/lib/search/visitor.tsx means: which transactions it holds for.
pub mod Visit
use prosper.Prelude.{
  ℕ, ◌+◌, ◌≡◌, refl, sym, ap, ◌∙◌, String, Bool, true, false, not, ◌&&◌, ◌||◌, List, [], ◌∷◌, map,
  keep, arith, ◌==◌, nat_eq, if◌then◌else◌, All, Bool-cases, ◌⊎◌, inl, inr, Result, ok, ◌>>=◌, any,
  nat_beq_iff,
}
use prosper.Transaction.{Transaction, id_of}
use prosper.Util.Sets.{contains}
use prosper.Util.Sets.Counts.{count, smaller}
use prosper.Search.{
  Term, ComparisonOperator, Query, DisjQuery, ConjQuery, ModClause, Clause, last_disj, then_disj,
  last_conj, or_conj, last_mod, and_mod, plain, negated, any_field, field_match, field_compare,
  grouping, Matchers, filter_result,
}

-- Tests of a transaction that do not throw.
pub record FieldTests : Type 0 where
  pub any_field_test : Transaction → Term → Bool
  pub field_test : Transaction → String → Term → Bool
  pub compare_test : Transaction → String → ComparisonOperator → String → Bool

-- The matchers answer for the transaction, with what the tests say.
pub record Answers (m : Matchers) (tests : FieldTests) (t : Transaction) : Type 0 where
  pub on_any_field : (term : Term) → m.match_any_field t term ≡ ok (tests.any_field_test t term)
  pub on_field :
      (name : String) (term : Term) → m.match_field t name term ≡ ok (tests.field_test t name term)
  pub on_compare :
      (name : String) (op : ComparisonOperator) (term : String)
      → m.compare_field t name op term ≡ ok (tests.compare_test t name op term)

module _ (tests : FieldTests) (t : Transaction) where
  unfoldable mutual
    pub holds_query : Query → Bool
    holds_query (last_disj d) = holds_disj d
    holds_query (then_disj d q) = holds_disj d && holds_query q

    pub holds_disj : DisjQuery → Bool
    holds_disj (last_conj c) = holds_conj c
    holds_disj (or_conj c d) = holds_conj c || holds_disj d

    pub holds_conj : ConjQuery → Bool
    holds_conj (last_mod c) = holds_mod c
    holds_conj (and_mod c rest) = holds_mod c && holds_conj rest

    pub holds_mod : ModClause → Bool
    holds_mod (plain c) = holds_clause c
    holds_mod (negated c) = not (holds_clause c)

    pub holds_clause : Clause → Bool
    holds_clause (any_field term) = tests.any_field_test t term
    holds_clause (field_match name term) = tests.field_test t name term
    holds_clause (field_compare name op term) = tests.compare_test t name op term
    holds_clause (grouping q) = holds_query q

-- The transaction is in the list, and no other of the list has its id.
abbrev pub Once : Transaction → List Transaction → Type 0
Once t [] = ⊥
Once t (u ∷ us) =
    (u ≡ t) × (count (id_of t) (map id_of us) ≡ 0) ⊎ ((id_of u == id_of t) ≡ false) × Once t us

-- How often a number occurs in a list that has it once if it is wanted.
abbrev pub bit : Bool → ℕ
bit true = 1
bit false = 0

pub count-map-id_of-Once :
    (t : Transaction) (ts : List Transaction) → Once t ts → count (id_of t) (map id_of ts) ≡ 1
count-map-id_of-Once t [] h = absurd h
count-map-id_of-Once t (u ∷ us) (inl (same, rest)) = rw (same, rest) (ground arith)
count-map-id_of-Once t (u ∷ us) (inr (other, h)) = rw other (count-map-id_of-Once t us h)

count-keep_zero :
    (x : ℕ) (p : Transaction → Bool) (ts : List Transaction)
    → count x (map id_of ts) ≡ 0
    → count x (map id_of (keep p ts)) ≡ 0
unfolding keep
count-keep_zero x p [] h = refl
count-keep_zero x p (u ∷ us) h = ground (arith, count-keep_zero x p us)

pub count-keep-Once :
    (t : Transaction) (p : Transaction → Bool) (ts : List Transaction)
    → Once t ts
    → count (id_of t) (map id_of (keep p ts)) ≡ bit (p t)
unfolding keep
count-keep-Once t p [] h = absurd h
count-keep-Once t p (u ∷ us) (inl (same, rest)) =
    let none_left = count-keep_zero (id_of t) p us rest in rw same (ground arith)
count-keep-Once t p (u ∷ us) (inr (other, h)) = let later = count-keep-Once t p us h in ground arith

pub count-keep :
    (x : ℕ) (p : ℕ → Bool) (l : List ℕ) → count x (keep p l) ≡ (if p x then count x l else 0)
unfolding keep
count-keep x p [] = ground arith
count-keep x p (y ∷ ys) = elim (Bool-cases (y == x)) [
  | inl e ↦
      let same : y ≡ x = (nat_beq_iff y x).0 e in
      let later = count-keep x p ys in rw same (ground arith)
  | inr e ↦ let later = count-keep x p ys in ground arith
]

pub contains-count : (x : ℕ) (l : List ℕ) (b : Bool) → count x l ≡ bit b → contains x l ≡ b
unfolding contains any
contains-count x [] b h = ground arith
contains-count x (y ∷ ys) b h = elim (Bool-cases (y == x)) [
  | inl e ↦ ground arith
  | inr e ↦ let later = contains-count x ys b in ground arith
]

pub filter_result-keep :
    (p : Transaction → Result Bool) (h : Transaction → Bool) (ts : List Transaction)
    → All (λ t. p t ≡ ok (h t)) ts
    → filter_result p ts ≡ ok (keep h ts)
unfolding filter_result keep
filter_result-keep p h [] a = refl
filter_result-keep p h (t ∷ ts) a = rw (a.0, filter_result-keep p h ts a.1) refl

pub smaller_and :
    (n : ℕ) (a b : Bool) → smaller (smaller n (bit a)) (bit b) ≡ smaller n (bit (a && b))
smaller_and n true true = ground arith
smaller_and n true false = ground arith
smaller_and n false b = ground arith

-- ===== src/Util/Sets/Counts.antt =====
-- How often a number occurs in an intersection or a union of frontend/lib/util/set.tsx.
use prosper.Prelude.{
  ℕ, ◌+◌, ◌-◌, ◌≤◌, ◌≡◌, refl, sym, ap, ◌∙◌, Bool, true, false, List, [], ◌∷◌, ◌++◌, arith, ◌==◌,
  nat_eq, if◌then◌else◌, ltb, leb, nat_beq, nat_beq_iff, length, any, Bool-cases, Option-cases, inl,
  inr, ◌||◌,
}
use prosper.Prelude.Maps.{Assoc, lookup, insert, lookup-insert}
use prosper.Util.Sets.{
  frequencies, left_over, take_counted, intersect_ordered, intersect, contains, add_all, union,
}

-- How often a number occurs in a list.
abbrev pub count : ℕ → List ℕ → ℕ
count x [] = 0
count x (y ∷ ys) = let rest = count x ys in if y == x then rest + 1 else rest

abbrev pub smaller : ℕ → ℕ → ℕ
smaller m n = if leb m n then m else n

left_over-insert :
    (k x n : ℕ) (freq : Assoc ℕ ℕ)
    → left_over x (insert k n freq) ≡ (if k == x then n else left_over x freq)
left_over-insert k x n freq = ground (arith, lookup-insert k x n freq)

left_over-frequencies :
    (x : ℕ) (a : List ℕ) (freq : Assoc ℕ ℕ)
    → left_over x (frequencies a freq) ≡ count x a + left_over x freq
unfolding frequencies
left_over-frequencies x [] freq = omega arith
left_over-frequencies x (y ∷ ys) freq = elim (Option-cases (lookup y freq)) [
  | inl e ↦
      ground (arith, left_over-frequencies x ys (insert y 1 freq), left_over-insert y x 1 freq)
  | inr (n, e) ↦
      ground (
        arith,
        left_over-frequencies x ys (insert y (n + 1) freq),
        left_over-insert y x (n + 1) freq,
      )
]

smaller_suc : (m n : ℕ) → 1 ≤ n → smaller m (n - 1) + 1 ≡ smaller (m + 1) n
smaller_suc m n h = ground arith

smaller_zero : (m n : ℕ) → n ≡ 0 → smaller m n ≡ smaller (m + 1) n
smaller_zero m n h = ground arith

count_same : (x y : ℕ) (ys : List ℕ) → (y == x) ≡ true → count x (y ∷ ys) ≡ count x ys + 1
count_same x y ys e = rw e refl

count_other : (x y : ℕ) (ys : List ℕ) → (y == x) ≡ false → count x (y ∷ ys) ≡ count x ys
count_other x y ys e = rw e refl

positive_of_not_zero : (n : ℕ) → nat_beq n 0 ≡ false → 1 ≤ n
positive_of_not_zero n h = ground arith

take_counted_spent :
    (y : ℕ) (ys : List ℕ) (freq : Assoc ℕ ℕ)
    → nat_beq (left_over y freq) 0 ≡ true
    → take_counted (y ∷ ys) freq ≡ take_counted ys freq
unfolding take_counted
take_counted_spent y ys freq h = rw h refl

take_counted_there :
    (y : ℕ) (ys : List ℕ) (freq : Assoc ℕ ℕ)
    → nat_beq (left_over y freq) 0 ≡ false
    → take_counted (y ∷ ys) freq ≡ y ∷ take_counted ys (insert y (left_over y freq - 1) freq)
unfolding take_counted
take_counted_there y ys freq h = rw h refl

count-take_counted_none :
    (x : ℕ) (freq : Assoc ℕ ℕ) → count x (take_counted [] freq) ≡ smaller 0 (left_over x freq)
unfolding take_counted
count-take_counted_none x freq = ground arith

left_over-insert_same :
    (y x n : ℕ) (freq : Assoc ℕ ℕ) → (y == x) ≡ true → left_over x (insert y n freq) ≡ n
left_over-insert_same y x n freq e = left_over-insert y x n freq ∙ rw e refl

left_over-insert_other :
    (y x n : ℕ) (freq : Assoc ℕ ℕ)
    → (y == x) ≡ false
    → left_over x (insert y n freq) ≡ left_over x freq
left_over-insert_other y x n freq e = left_over-insert y x n freq ∙ rw e refl

-- The filter takes a number as often as it occurs in both lists.
count-take_counted :
    (x : ℕ) (b : List ℕ) (freq : Assoc ℕ ℕ)
    → count x (take_counted b freq) ≡ smaller (count x b) (left_over x freq)
count-take_counted x [] freq = count-take_counted_none x freq
count-take_counted x (y ∷ ys) freq =
    let n = left_over y freq - 1 in
    elim (Bool-cases (nat_beq (left_over y freq) 0)) [
      | inl spent ↦
          ap (count x) (take_counted_spent y ys freq spent)
          ∙ count-take_counted x ys freq
          ∙ elim (Bool-cases (y == x)) [
            | inl e ↦
                let same : y ≡ x = (nat_beq_iff y x).0 e in
                let none_left : left_over x freq ≡ 0 =
                  rw (← same) ((nat_beq_iff (left_over y freq) 0).0 spent) in
                smaller_zero (count x ys) (left_over x freq) none_left
                ∙ ap (λ m. smaller m (left_over x freq)) (sym (count_same x y ys e))
            | inr e ↦ ap (λ m. smaller m (left_over x freq)) (sym (count_other x y ys e))
          ]
      | inr there ↦ ap (count x) (take_counted_there y ys freq there) ∙ elim (Bool-cases (y == x)) [
        | inl e ↦
            let same : y ≡ x = (nat_beq_iff y x).0 e in
            count_same x y (take_counted ys (insert y n freq)) e
            ∙ ap (λ m. m + 1)
                (count-take_counted x ys (insert y n freq)
                  ∙ ap (smaller (count x ys)) (left_over-insert_same y x n freq e))
            ∙ smaller_suc (count x ys) (left_over y freq)
                (positive_of_not_zero (left_over y freq) there)
            ∙ ap (λ k. smaller (count x ys + 1) (left_over k freq)) same
            ∙ ap (λ m. smaller m (left_over x freq)) (sym (count_same x y ys e))
        | inr e ↦
            count_other x y (take_counted ys (insert y n freq)) e
            ∙ count-take_counted x ys (insert y n freq)
            ∙ ap (smaller (count x ys)) (left_over-insert_other y x n freq e)
            ∙ ap (λ m. smaller m (left_over x freq)) (sym (count_other x y ys e))
      ]
    ]

smaller_comm : (m n : ℕ) → smaller m n ≡ smaller n m
smaller_comm m n = ground arith

count-intersect_ordered :
    (x : ℕ) (a b : List ℕ) → count x (intersect_ordered a b) ≡ smaller (count x b) (count x a)
unfolding intersect_ordered
count-intersect_ordered x a b =
    count-take_counted x b (frequencies a [])
    ∙ ap (smaller (count x b)) (left_over-frequencies x a [] ∙ nothing_left x (count x a))
  where
    nothing_left : (x n : ℕ) → n + left_over x [] ≡ n
    nothing_left x n = ground arith

-- An intersection has each number as often as the list that has it less often.
pub count-intersect :
    (x : ℕ) (a b : List ℕ) → count x (intersect a b) ≡ smaller (count x a) (count x b)
unfolding intersect
count-intersect x a b = elim (Bool-cases (ltb (length b) (length a))) [
  | inl e ↦ rw e (count-intersect_ordered x b a)
  | inr e ↦ rw e (count-intersect_ordered x a b ∙ smaller_comm (count x b) (count x a))
]

-- A test that a list passes a number on.
pub contains-append :
    (x : ℕ) (a : List ℕ) (y : ℕ) → contains x (a ++ y ∷ []) ≡ (contains x a || y == x)
unfolding contains any
contains-append x [] y = ground arith
contains-append x (z ∷ a) y = ground (arith, contains-append x a y)

or_false : (s : Bool) → s ≡ (s || false)
or_false true = refl
or_false false = refl

or_absorb : (s b t : Bool) → (b ≡ true → s ≡ true) → (s || t) ≡ (s || (b || t))
or_absorb true b t h = refl
or_absorb false true t h = absurd (ground arith)
or_absorb false false t h = refl

pub or_assoc : (s b t : Bool) → (s || b || t) ≡ (s || (b || t))
or_assoc true b t = refl
or_assoc false b t = refl

contains_of_same :
    (x y : ℕ) (set : List ℕ) → contains y set ≡ true → (y == x) ≡ true → contains x set ≡ true
contains_of_same x y set h e = ap (λ k. contains k set) (sym ((nat_beq_iff y x).0 e)) ∙ h

contains-add_all :
    (x : ℕ) (b set : List ℕ) → contains x (add_all set b) ≡ (contains x set || contains x b)
unfolding add_all
contains-add_all x [] set = or_false (contains x set)
contains-add_all x (y ∷ ys) set = elim (Bool-cases (contains y set)) [
  | inl e ↦ rw e (
      contains-add_all x ys set
      ∙ or_absorb (contains x set) (y == x) (contains x ys) (contains_of_same x y set e))
  | inr e ↦ rw e (
      contains-add_all x ys (set ++ y ∷ [])
      ∙ ap (λ b. b || contains x ys) (contains-append x set y)
      ∙ or_assoc (contains x set) (y == x) (contains x ys))
]

-- A union has exactly the numbers of the two lists.
pub contains-union :
    (x : ℕ) (a b : List ℕ) → contains x (union a b) ≡ (contains x a || contains x b)
unfolding union
contains-union x a b =
    contains-add_all x b (add_all [] a) ∙ ap (λ s. s || contains x b) (contains-add_all x a [])

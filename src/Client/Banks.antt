-- ===== src/Client/Banks.antt =====
-- The order of the accounts that `banksModelFromDatabaseData` of frontend/lib/ClientSideModel.tsx
-- gives.
use prosper.Prelude.{
  ℕ, ◌≡◌, refl, sym, ap, ◌∙◌, subst, true, false, some, List, [], ◌∷◌, map, arith, ◌==◌, nat_eq,
  All, Option-cases, Bool-cases, ◌⊎◌, inl, inr, ok, err, or_throw, >>=-eq-ok, map_result,
  bank_not_found, or_throw-eq-ok, nat_beq_iff,
}
use prosper.Prelude.Int.{int_eq}
use prosper.Prelude.Maps.{Assoc, lookup, insert, from_entries, lookup-insert, lookup-insert_self}
use prosper.Model.BankAccount.{Bank, BankAccount}
use prosper.Client.{account_entry, with_bank, account_le}

abbrev pub IsKnown : ℕ → Assoc ℕ Bank → Type 0
IsKnown k m = (b : Bank) × (lookup k m ≡ some b)

insert-IsKnown : (k j : ℕ) (v : Bank) (m : Assoc ℕ Bank) → IsKnown k m → IsKnown k (insert j v m)
insert-IsKnown k j v m h = elim (Bool-cases (j == k)) [
  | inl e ↦ (v, lookup-insert j k v m ∙ rw e refl)
  | inr e ↦ (h.0, lookup-insert j k v m ∙ rw e h.1)
]

from_entries-IsKnown :
    (l : List (ℕ × Bank)) (k : ℕ) (m : Assoc ℕ Bank) → IsKnown k m → IsKnown k (from_entries l m)
unfolding from_entries
from_entries-IsKnown [] k m h = h
from_entries-IsKnown ((j, v) ∷ l) k m h =
    from_entries-IsKnown l k (insert j v m) (insert-IsKnown k j v m h)

pub All-IsKnown :
    (l : List (ℕ × Bank)) (m : Assoc ℕ Bank) → All (λ e. IsKnown e.0 (from_entries l m)) l
unfolding from_entries
All-IsKnown [] m = tt
All-IsKnown ((j, v) ∷ l) m = (
  from_entries-IsKnown l j (insert j v m) (v, lookup-insert_self j v m),
  All-IsKnown l (insert j v m),
)

module _ (by_bank : Assoc ℕ Bank) where
  -- The account's bank is there.
  abbrev pub HasBank : BankAccount → Type 0
  HasBank a = (b : Bank) × (lookup a.bank_id by_bank ≡ some b)

  pub entries-cases :
      (accounts : List BankAccount)
      → All HasBank accounts
          × ((es : List (ℕ × Bank)) × (map_result (account_entry by_bank) accounts ≡ ok es))
        ⊎ (¬ All HasBank accounts)
          × (map_result (account_entry by_bank) accounts ≡ err bank_not_found)
  unfolding map_result account_entry
  entries-cases [] = inl (tt, ([], refl))
  entries-cases (a ∷ accounts) = elim (Option-cases (lookup a.bank_id by_bank)) [
    | inl e ↦ inr (λ all. ground arith, rw e refl)
    | inr (b, e) ↦ elim (entries-cases accounts) [
      | inl (all, (es, done)) ↦ inl (((b, e), all), ((a.id, b) ∷ es, rw (e, done) refl))
      | inr (missing, fails) ↦ inr (λ all. missing all.1, rw (e, fails) refl)
    ]
  ]

  module _ (f : ℕ → ℕ) where
    -- The bank of an entry is the one that its account belongs to.
    abbrev pub IsRight : ℕ → Bank → Type 0
    IsRight k b = lookup (f k) by_bank ≡ some b

    abbrev pub AllRight : Assoc ℕ Bank → Type 0
    AllRight m = (k : ℕ) (b : Bank) → lookup k m ≡ some b → IsRight k b

    pub nil-AllRight : AllRight []
    unfolding lookup
    nil-AllRight k b e = absurd (ground arith)

    insert-AllRight :
        (j : ℕ) (v : Bank) (m : Assoc ℕ Bank) → IsRight j v → AllRight m → AllRight (insert j v m)
    insert-AllRight j v m h all k b e = elim (Bool-cases (j == k)) [
      | inl same ↦
          let stored : some v ≡ some b = sym (lookup-insert j k v m ∙ rw same refl) ∙ e in
          ap (λ n. lookup (f n) by_bank) (sym ((nat_beq_iff j k).0 same)) ∙ h ∙ stored
      | inr other ↦ all k b (sym (lookup-insert j k v m ∙ rw other refl) ∙ e)
    ]

    pub from_entries-AllRight :
        (l : List (ℕ × Bank)) (m : Assoc ℕ Bank)
        → All (λ e. IsRight e.0 e.1) l
        → AllRight m
        → AllRight (from_entries l m)
    unfolding from_entries
    from_entries-AllRight [] m h all = all
    from_entries-AllRight ((j, v) ∷ l) m h all =
        from_entries-AllRight l (insert j v m) h.1 (insert-AllRight j v m h.0 all)

    pub entries-IsRight :
        (accounts : List BankAccount) (es : List (ℕ × Bank))
        → All (λ a. f a.id ≡ a.bank_id) accounts
        → map_result (account_entry by_bank) accounts ≡ ok es
        → All (λ e. IsRight e.0 e.1) es
    unfolding map_result account_entry
    entries-IsRight [] es h done = let same : [] ≡ es = cc in rw (← same) tt
    entries-IsRight (a ∷ accounts) es h done =
        let (e, first, later) = >>=-eq-ok (account_entry by_bank a) _ done in
        let (rest, others, last) =
          >>=-eq-ok (map_result (account_entry by_bank) accounts) _ later in
        let (b, found, made) =
          >>=-eq-ok (or_throw (lookup a.bank_id by_bank) bank_not_found) _ first in
        let found' = or_throw-eq-ok (lookup a.bank_id by_bank) bank_not_found found in
        let same : (a.id, b) ∷ rest ≡ es = cc in
        rw (← same) (rw h.0 found', entries-IsRight accounts rest h.1 others)

    pub accounts-IsKnown :
        (accounts : List BankAccount) (es : List (ℕ × Bank)) (m : Assoc ℕ Bank)
        → map_result (account_entry by_bank) accounts ≡ ok es
        → All (λ e. IsKnown e.0 m) es
        → All (λ a. IsKnown a.id m) accounts
    unfolding map_result account_entry
    accounts-IsKnown [] es m done k = tt
    accounts-IsKnown (a ∷ accounts) es m done k =
        let (e, first, later) = >>=-eq-ok (account_entry by_bank a) _ done in
        let (rest, others, last) =
          >>=-eq-ok (map_result (account_entry by_bank) accounts) _ later in
        let (b, found, made) =
          >>=-eq-ok (or_throw (lookup a.bank_id by_bank) bank_not_found) _ first in
        let same : es ≡ (a.id, b) ∷ rest = cc in
        let k' = subst (All (λ (e : ℕ × Bank). IsKnown e.0 m)) same k in
        (k'.0, accounts-IsKnown accounts rest m others k'.1)

    -- The accounts with their banks, before the sort.
    pub record Ranked (m : Assoc ℕ Bank) (accounts : List BankAccount) : Type 0 where
      pub ranked : List (Bank × BankAccount)
      pub done : map_result (with_bank m) accounts ≡ ok ranked
      pub same_accounts : map (λ r. r.1) ranked ≡ accounts
      pub own_banks : All (λ r. lookup r.1.bank_id by_bank ≡ some r.0) ranked

    pub with_bank-Ranked :
        (m : Assoc ℕ Bank) (accounts : List BankAccount)
        → AllRight m
        → All (λ a. f a.id ≡ a.bank_id) accounts
        → All (λ a. IsKnown a.id m) accounts
        → Ranked m accounts
    unfolding map_result with_bank
    with_bank-Ranked m [] right h k = record {
      ranked = [];
      done = refl;
      same_accounts = refl;
      own_banks = tt;
    }
    with_bank-Ranked m (a ∷ accounts) right h k =
        let (b, found) = k.0 in
        let r = with_bank-Ranked m accounts right h.1 k.1 in
        let own : lookup a.bank_id by_bank ≡ some b =
          ap (λ n. lookup n by_bank) (sym h.0) ∙ right a.id b found in
        record {
          ranked = (b, a) ∷ r.ranked;
          done = rw (found, r.done) refl;
          same_accounts = ap (λ l. a ∷ l) r.same_accounts;
          own_banks = (own, r.own_banks);
        }

pub account_le_total : (a b : Bank × BankAccount) → account_le a b ≡ false → account_le b a ≡ true
unfolding account_le
account_le_total a b h = ground arith

pub account_le_trans :
    (a b c : Bank × BankAccount)
    → account_le a b ≡ true
    → account_le b c ≡ true
    → account_le a c ≡ true
unfolding account_le
account_le_trans a b c h k = ground arith

-- ===== src/Model/BankAccount/Grouping.antt =====
-- One step of `groupAccountsByBank` of frontend/lib/model/BankAccount.tsx: an account joins the
-- groups.
use mathlib.Core.List.{append-nil}
use prosper.Prelude.{
  ℕ, ◌≡◌, refl, sym, ap, ◌∙◌, subst, Bool, true, false, ◌||◌, List, [], ◌∷◌, ◌++◌, arith, ◌==◌,
  nat_eq, nat_beq_iff, All, any, keep, keep-append, Bool-cases, inl, inr,
}
use prosper.Model.BankAccount.{Bank, BankAccount, BankGroup, accounts_for_bank, add_to_group}

-- Some group is of the bank with this id.
abbrev pub has_group : ℕ → List BankGroup → Bool
has_group id groups = any (λ (g : BankGroup). g.bank.id == id) groups

-- A group holds the accounts of its bank, in their order.
abbrev pub IsWhole : List BankAccount → BankGroup → Type 0
IsWhole accounts g = g.accounts ≡ accounts_for_bank g.bank accounts

-- No two groups are of the same bank.
abbrev pub IsDistinct : List BankGroup → Type 0
IsDistinct [] = Unit
IsDistinct (g ∷ groups) = (has_group g.bank.id groups ≡ false) × IsDistinct groups

has_group-add_to_group :
    (k : ℕ) (bank : Bank) (a : BankAccount) (groups : List BankGroup)
    → has_group k (add_to_group bank a groups) ≡ (has_group k groups || bank.id == k)
unfolding add_to_group any
has_group-add_to_group k bank a [] = ground arith
has_group-add_to_group k bank a (g ∷ groups) =
    ground (arith, has_group-add_to_group k bank a groups)

pub add_to_group-IsDistinct :
    (bank : Bank) (a : BankAccount) (groups : List BankGroup)
    → IsDistinct groups
    → IsDistinct (add_to_group bank a groups)
unfolding add_to_group any
add_to_group-IsDistinct bank a [] h = (has_none bank.id, tt)
  where
    has_none : (k : ℕ) → has_group k [] ≡ false
    has_none k = refl
add_to_group-IsDistinct bank a (g ∷ groups) h = elim (Bool-cases (g.bank.id == bank.id)) [
  | inl e ↦ rw e h
  | inr e ↦ rw e (
    has_group-add_to_group g.bank.id bank a groups ∙ rw h.0 (flipped g.bank.id bank.id e),
    add_to_group-IsDistinct bank a groups h.1,
  )
]
  where
    flipped : (m n : ℕ) → (m == n) ≡ false → (false || n == m) ≡ false
    flipped m n h = ground arith

-- The accounts of a bank, with one more account at the end.
accounts_for_bank-own :
    (bank : Bank) (a : BankAccount) (before : List BankAccount)
    → (a.bank_id == bank.id) ≡ true
    → accounts_for_bank bank (before ++ a ∷ []) ≡ accounts_for_bank bank before ++ a ∷ []
unfolding accounts_for_bank keep
accounts_for_bank-own bank a before h =
    keep-append (λ (b : BankAccount). b.bank_id == bank.id) before (a ∷ []) ∙ rw h refl

accounts_for_bank-other :
    (bank : Bank) (a : BankAccount) (before : List BankAccount)
    → (a.bank_id == bank.id) ≡ false
    → accounts_for_bank bank (before ++ a ∷ []) ≡ accounts_for_bank bank before
unfolding accounts_for_bank keep
accounts_for_bank-other bank a before h =
    keep-append (λ (b : BankAccount). b.bank_id == bank.id) before (a ∷ [])
    ∙ rw h (append-nil (keep (λ (b : BankAccount). b.bank_id == bank.id) before))

equal_ids : (m n : ℕ) → (m == n) ≡ true → m ≡ n
equal_ids m n h = (nat_beq_iff m n).0 h

differ_after : (x m n : ℕ) → x ≡ n → (m == n) ≡ false → (x == m) ≡ false
differ_after x m n e h = ground arith

agree_after : (x m n : ℕ) → x ≡ n → (m == n) ≡ true → (x == m) ≡ true
agree_after x m n e h = ground arith

-- The groups of other banks stay whole.
others-IsWhole :
    (a : BankAccount) (before : List BankAccount) (k : ℕ) (groups : List BankGroup)
    → a.bank_id ≡ k
    → has_group k groups ≡ false
    → All (IsWhole before) groups
    → All (IsWhole (before ++ a ∷ [])) groups
unfolding any
others-IsWhole a before k [] e h w = tt
others-IsWhole a before k (g ∷ groups) e h w = elim (Bool-cases (g.bank.id == k)) [
  | inl same ↦ absurd (ground arith)
  | inr other ↦ (
    w.0
        ∙ sym
            (accounts_for_bank-other g.bank a before (differ_after a.bank_id g.bank.id k e other)),
    others-IsWhole a before k groups e (rw other at h) w.1,
  )
]

pub add_to_group-IsWhole :
    (bank : Bank) (a : BankAccount) (before : List BankAccount) (groups : List BankGroup)
    → a.bank_id ≡ bank.id
    → IsDistinct groups
    → (has_group bank.id groups ≡ false → accounts_for_bank bank before ≡ [])
    → All (IsWhole before) groups
    → All (IsWhole (before ++ a ∷ [])) (add_to_group bank a groups)
unfolding add_to_group any
add_to_group-IsWhole bank a before [] e d new w = (
  sym (
      accounts_for_bank-own bank a before ((nat_beq_iff a.bank_id bank.id).1 e)
      ∙ ap (λ l. l ++ a ∷ []) (new refl)),
  tt,
)
add_to_group-IsWhole bank a before (g ∷ groups) e d new w =
    elim (Bool-cases (g.bank.id == bank.id)) [
      | inl same ↦ rw same (
        ap (λ l. l ++ a ∷ []) w.0
            ∙ sym (
                accounts_for_bank-own g.bank a before
                  (agree_after a.bank_id g.bank.id bank.id e same)),
        others-IsWhole a before g.bank.id groups (e ∙ sym (equal_ids g.bank.id bank.id same)) d.0
            w.1,
      )
      | inr other ↦ rw other (
        w.0
            ∙ sym (
                accounts_for_bank-other g.bank a before
                  (differ_after a.bank_id g.bank.id bank.id e other)),
        add_to_group-IsWhole bank a before groups e d.1 (λ h. new (rw other h)) w.1,
      )
    ]

-- Every account has a group.
abbrev pub IsCovered : List BankGroup → BankAccount → Type 0
IsCovered groups a = has_group a.bank_id groups ≡ true

pub none_before :
    (bank : Bank) (before : List BankAccount) (groups : List BankGroup)
    → All (IsCovered groups) before
    → has_group bank.id groups ≡ false
    → accounts_for_bank bank before ≡ []
unfolding accounts_for_bank keep
none_before bank [] groups c h = refl
none_before bank (b ∷ before) groups c h = elim (Bool-cases (b.bank_id == bank.id)) [
  | inl e ↦
      let covered : has_group bank.id groups ≡ true =
        subst (λ k. has_group k groups ≡ true) (equal_ids b.bank_id bank.id e) c.0 in
      absurd (ground arith)
  | inr e ↦ rw e (none_before bank before groups c.1 h)
]

pub still-IsCovered :
    (bank : Bank) (a : BankAccount) (groups : List BankGroup) (before : List BankAccount)
    → All (IsCovered groups) before
    → All (IsCovered (add_to_group bank a groups)) before
still-IsCovered bank a groups [] c = tt
still-IsCovered bank a groups (b ∷ before) c = (
  has_group-add_to_group b.bank_id bank a groups ∙ rw c.0 refl,
  still-IsCovered bank a groups before c.1,
)

pub now-IsCovered :
    (bank : Bank) (a : BankAccount) (groups : List BankGroup)
    → a.bank_id ≡ bank.id
    → IsCovered (add_to_group bank a groups) a
now-IsCovered bank a groups e =
    has_group-add_to_group a.bank_id bank a groups
    ∙ last_true (has_group a.bank_id groups) bank.id a.bank_id e
  where
    last_true : (b : Bool) (m n : ℕ) → n ≡ m → (b || m == n) ≡ true
    last_true b m n e = ground arith

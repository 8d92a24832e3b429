-- ===== src/Model/BankAccount/Groups.antt =====
-- `groupAccountsByBank` of frontend/lib/model/BankAccount.tsx as a whole.
use mathlib.Core.List.{append_assoc, append-nil}
use prosper.Prelude.{
  ◌≡◌, refl, sym, subst, List, [], ◌∷◌, ◌++◌, ◌==◌, nat_eq, nat_beq_iff, All, All-append, find,
  find_passes, ◌⊎◌, inl, inr, ok, err, bank_not_found, Option-cases,
}
use prosper.Model.BankAccount.{
  Bank, BankAccount, BankGroup, account_bank, add_to_group, group_from, group_accounts_by_bank,
}
use prosper.Model.BankAccount.Grouping.{
  IsWhole, IsDistinct, IsCovered, add_to_group-IsWhole, add_to_group-IsDistinct, none_before,
  still-IsCovered, now-IsCovered,
}

module _ (banks : List Bank) where
  -- The bank of an account is known.
  abbrev pub HasOwnBank : BankAccount → Type 0
  HasOwnBank a = (b : Bank) × (account_bank a banks ≡ ok b)

  account_bank-cases :
      (a : BankAccount)
      → ((b : Bank) × (account_bank a banks ≡ ok b) × (a.bank_id ≡ b.id))
        ⊎ (account_bank a banks ≡ err bank_not_found)
  unfolding account_bank
  account_bank-cases a = elim (Option-cases (find (λ (b : Bank). b.id == a.bank_id) banks)) [
    | inl none_is ↦ inr (rw none_is refl)
    | inr (b, found) ↦ inl (
      b,
      rw found refl,
      sym (
          (nat_beq_iff b.id a.bank_id).0
            (find_passes (λ (c : Bank). c.id == a.bank_id) banks b found)),
    )
  ]

  -- What the groups are after the accounts `before`.
  record Grouped (before : List BankAccount) (groups : List BankGroup) : Type 0 where
    whole : All (IsWhole before) groups
    covered : All (IsCovered groups) before
    distinct : IsDistinct groups

  add_to_group-Grouped :
      (bank : Bank) (a : BankAccount) (before : List BankAccount) (groups : List BankGroup)
      → a.bank_id ≡ bank.id
      → Grouped before groups
      → Grouped (before ++ a ∷ []) (add_to_group bank a groups)
  add_to_group-Grouped bank a before groups e g = record {
    whole =
        add_to_group-IsWhole bank a before groups e g.distinct
          (none_before bank before groups g.covered) g.whole;
    covered =
        All-append (IsCovered (add_to_group bank a groups)) before (a ∷ [])
          (still-IsCovered bank a groups before g.covered) (now-IsCovered bank a groups e, tt);
    distinct = add_to_group-IsDistinct bank a groups g.distinct;
  }

  group_from-cases :
      (before : List BankAccount) (groups : List BankGroup) (accounts : List BankAccount)
      → Grouped before groups
      → All HasOwnBank accounts
          × ((out : List BankGroup) × (group_from banks groups accounts ≡ ok out)
              × Grouped (before ++ accounts) out)
        ⊎ (¬ All HasOwnBank accounts) × (group_from banks groups accounts ≡ err bank_not_found)
  unfolding group_from
  group_from-cases before groups [] g =
      inl (tt, (groups, refl, subst (λ l. Grouped l groups) (sym (append-nil before)) g))
  group_from-cases before groups (a ∷ accounts) g = elim (account_bank-cases a) [
    | inr fails ↦ inr ((λ all. let (b, is_ok) = all.0 in cc), rw fails refl)
    | inl (bank, is_ok, e) ↦
        elim (group_from-cases (before ++ a ∷ []) (add_to_group bank a groups) accounts
          (add_to_group-Grouped bank a before groups e g)) [
            | inr (missing, fails) ↦ inr ((λ all. missing all.1), rw is_ok fails)
            | inl (all, (out, done, h)) ↦ inl (
              ((bank, is_ok), all),
              (
                out,
                rw is_ok done,
                subst (λ l. Grouped l out) (append_assoc before (a ∷ []) accounts) h,
              ),
            )
          ]
  ]

  -- The call throws exactly when the bank of an account is not known. Else each group holds
  -- exactly the accounts of its bank, in their order, every account has a group, and no two groups
  -- are of the same bank.
  pub group_accounts_by_bank_groups :
      (accounts : List BankAccount)
      → All HasOwnBank accounts
          × ((groups : List BankGroup) × (group_accounts_by_bank accounts banks ≡ ok groups)
              × All (IsWhole accounts) groups
              × All (IsCovered groups) accounts
              × IsDistinct groups)
        ⊎ (¬ All HasOwnBank accounts) × (group_accounts_by_bank accounts banks ≡ err bank_not_found)
  unfolding group_accounts_by_bank
  group_accounts_by_bank_groups accounts =
      elim (group_from-cases [] [] accounts (record { whole = tt; covered = tt; distinct = tt })) [
        | inl (all, (out, done, g)) ↦ inl (all, (out, done, g.whole, g.covered, g.distinct))
        | inr r ↦ inr r
      ]

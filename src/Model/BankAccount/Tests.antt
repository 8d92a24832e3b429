-- ===== src/Model/BankAccount/Tests.antt =====
-- Tests of `groupAccountsByBank` of frontend/lib/model/BankAccount.tsx.
use prosper.Prelude.{
  ℕ, ◌≡◌, refl, false, none, some, List, [], ◌∷◌, All, ◌⊎◌, ok, err, bank_not_found, nat_eq,
}
use prosper.Prelude.Int.{pos}
use prosper.Model.BankAccount.{Bank, BankAccount, BankGroup, group_accounts_by_bank}
use prosper.Model.BankAccount.Grouping.{IsWhole, IsDistinct, IsCovered}
use prosper.Model.BankAccount.Groups.{HasOwnBank, group_accounts_by_bank_groups}

abbrev bank_at : ℕ → Bank
bank_at id = record { id = id; name = "Bank"; display_order = pos 0 }

abbrev account_at : ℕ → ℕ → BankAccount
account_at id bank_id = record {
  id = id;
  name = "Account";
  bank_id = bank_id;
  initial_balance_nanos = pos 0;
  currency_code = some "USD";
  stock = none;
  display_order = pos 0;
  archived = false;
  joint = false;
}

abbrev mixed : List BankAccount
mixed = account_at 1 7 ∷ account_at 2 8 ∷ account_at 3 7 ∷ []

abbrev known : List Bank
known = bank_at 8 ∷ bank_at 7 ∷ []

-- The groups come in the order of their first account.
seven_first :
    group_accounts_by_bank mixed known
    ≡ ok (
        record { bank = bank_at 7; accounts = account_at 1 7 ∷ account_at 3 7 ∷ [] }
        ∷ record { bank = bank_at 8; accounts = account_at 2 8 ∷ [] }
        ∷ [])
unfolding group_accounts_by_bank
seven_first = refl

eight_unknown : group_accounts_by_bank mixed (bank_at 7 ∷ []) ≡ err bank_not_found
unfolding group_accounts_by_bank
eight_unknown = refl

group_accounts_by_bank_groups_example :
    All (HasOwnBank known) mixed
      × ((groups : List BankGroup) × (group_accounts_by_bank mixed known ≡ ok groups)
          × All (IsWhole mixed) groups
          × All (IsCovered groups) mixed
          × IsDistinct groups)
    ⊎ (¬ All (HasOwnBank known) mixed) × (group_accounts_by_bank mixed known ≡ err bank_not_found)
group_accounts_by_bank_groups_example = group_accounts_by_bank_groups known mixed

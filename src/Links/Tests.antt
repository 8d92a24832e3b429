-- ===== src/Links/Tests.antt =====
-- Tests of frontend/lib/model/TransactionLink.tsx, and the theorem at a concrete input.
use prosper.Prelude.{ℕ, ◌≡◌, refl, none, nat_eq, List, [], ◌∷◌, ◌++◌, map, ok, err, not_an_income}
use prosper.Prelude.Int.{pos}
use prosper.Prelude.Maps.{values, lookup}
use prosper.Model.Ledger.{PbTransactionLink, LinkType}
use prosper.Transaction.{Transaction, Income, PersonalExpense, personal_expense, income, personal}
use prosper.Versions.{superseded_ids}
use prosper.Versions.Tests.{edited}
use prosper.Links.{
  Found, TransactionLink, refund, debt_settling, by_id, transaction_link_model_from_db,
}
use prosper.Links.Refunds.{refund_list, all_returned, transaction_link_model_refunds}

abbrev pub shoes : PersonalExpense
shoes = record {
  id = 2;
  timestamp_epoch = pos 100;
  vendor = "Shop";
  amount_nanos = pos 90;
  companions = [];
  note = "";
  account_id = 1;
  category_id = 1;
  tags_ids = [];
  trip_id = none;
  refund_group_transaction_ids = [];
}

abbrev pub money_back : ℕ → Income
money_back id = record {
  id = id;
  timestamp_epoch = pos 200;
  payer = "Shop";
  amount_nanos = pos 40;
  companions = [];
  note = "";
  account_id = 1;
  category_id = 1;
  tags_ids = [];
  trip_id = none;
}

abbrev all : List Transaction
all = personal_expense shoes ∷ income (money_back 3) ∷ income (money_back 5) ∷ []

abbrev link : ℕ → ℕ → ℕ → PbTransactionLink
link id source linked = record {
  id = id;
  source_transaction_id = source;
  linked_transaction_id = linked;
  link_type = LinkType.refund;
}

-- Two refunds of the same expense; the link from its superseded version is skipped.
abbrev links : List PbTransactionLink
links = link 70 1 3 ∷ link 71 2 3 ∷ link 72 2 5 ∷ []

abbrev linked : List TransactionLink
linked =
    refund
      (record { id = 71; expense = personal shoes; refunds = money_back 3 ∷ money_back 5 ∷ [] })
    ∷ []

linked_made : transaction_link_model_from_db links all edited ≡ ok linked
unfolding transaction_link_model_from_db
linked_made = refl

expense_is_no_refund :
    transaction_link_model_from_db (link 73 2 2 ∷ []) all edited ≡ err not_an_income
unfolding transaction_link_model_from_db
expense_is_no_refund = refl

transaction_link_model_refunds_example :
    (found : Found) × (linked
      ≡ map (λ r. refund r) (values found.refunds)
        ++ map (λ d. debt_settling d) (values found.debts))
    × ((source : ℕ)
        → refund_list (lookup source found.refunds)
          ≡ all_returned (superseded_ids edited) (by_id all) source links)
transaction_link_model_refunds_example =
    transaction_link_model_refunds links all edited linked linked_made

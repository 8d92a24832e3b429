-- ===== src/Form/Expense/Stored.antt =====
-- The values of an expense form for an expense that is recorded, from
-- frontend/components/txform/expense/defaults.tsx.
use prosper.Prelude.{
  ℕ, String, Bool, true, false, Option, none, some, List, [], ◌∷◌, map, ◌==◌, nat_eq, if◌then◌else◌,
  Result, ok, ◌>>=◌,
}
use prosper.Links.{TransactionLink, DebtSettling, debt_settling, refund}
use prosper.Model.Ledger.Forms.{SharingType}
use prosper.Model.Tag.{Tag, Trip}
use prosper.Transaction.{
  Expense, PersonalExpense, ThirdPartyExpense, TransactionCompanion, personal, third_party,
  of_expense, personal_expense, third_party_expense,
}
use prosper.Transaction.Accessors.{transaction_tags, transaction_trip}
use prosper.Transaction.Amounts.{own_share_amount_nanos_ignore_refunds}
use prosper.Form.{Repayment, ExpenseForm, date_of_epoch}

-- Whether a link settles the debt of the expense.
settles : ℕ → TransactionLink → Option DebtSettling
settles id (debt_settling d) = if d.expense.id == id then some d else none
settles id (refund r) = none

-- The filter and the search for the first link.
unfoldable pub settling_link : ℕ → List TransactionLink → Option DebtSettling
unfolding settles
settling_link id [] = none
settling_link id (l ∷ links) = elim (settles id l) [
  | some d ↦ some d
  | none ↦ settling_link id links
]

abbrev pub repayment_of : Option DebtSettling → Option Repayment
repayment_of none = none
repayment_of (some d) = some (record {
  timestamp = date_of_epoch d.repayment.timestamp_epoch;
  account_id = d.repayment.account_id;
  category_id = d.repayment.category_id;
})

unfoldable pub find_repayment : ℕ → List TransactionLink → Option Repayment
unfolding settling_link
find_repayment id links = repayment_of (settling_link id links)

abbrev pub first_companion : List TransactionCompanion → Option String
first_companion [] = none
first_companion (c ∷ _) = some c.name

abbrev pub trip_name_of : Option Trip → Option String
trip_name_of none = none
trip_name_of (some trip) = some trip.name

abbrev pub names_of : List Tag → List String
names_of tags = map (λ (t : Tag). t.name) tags

-- `t.companions.length > 0`
abbrev pub has_companion : List TransactionCompanion → Bool
has_companion [] = false
has_companion (_ ∷ _) = true

-- The values, with the repayment and the tags that were found.
unfoldable pub third_party_with :
    ThirdPartyExpense → List Trip → Option Repayment → List Tag → ExpenseForm Repayment
unfolding transaction_trip own_share_amount_nanos_ignore_refunds
third_party_with t all_trips repayment tags = record {
  timestamp = date_of_epoch t.timestamp_epoch;
  amount = t.amount_nanos;
  own_share_amount = own_share_amount_nanos_ignore_refunds (of_expense (third_party t));
  vendor = t.vendor;
  category_id = t.category_id;
  tag_names = names_of tags;
  description = some t.note;
  trip_name = trip_name_of (transaction_trip (of_expense (third_party t)) all_trips);
  companion = first_companion t.companions;
  sharing_type = elim repayment [
    | some _ ↦ SharingType.paid_other_repaid
    | none ↦ SharingType.paid_other_owed
  ];
  payer = some t.payer;
  currency = some t.currency_code;
  repayment = repayment;
  account_id = none;
}

unfoldable pub expense_from_third_party :
    ThirdPartyExpense → List Tag → List Trip → List TransactionLink → Result (ExpenseForm Repayment)
unfolding transaction_tags find_repayment third_party_with
expense_from_third_party t all_tags all_trips all_links = do
  tags ← transaction_tags (third_party_expense t) all_tags
  ok (third_party_with t all_trips (find_repayment t.id all_links) tags)

unfoldable pub personal_with : PersonalExpense → List Trip → List Tag → ExpenseForm Repayment
unfolding transaction_trip own_share_amount_nanos_ignore_refunds
personal_with t all_trips tags = record {
  timestamp = date_of_epoch t.timestamp_epoch;
  amount = t.amount_nanos;
  own_share_amount = own_share_amount_nanos_ignore_refunds (of_expense (personal t));
  vendor = t.vendor;
  category_id = t.category_id;
  tag_names = names_of tags;
  description = some t.note;
  trip_name = trip_name_of (transaction_trip (of_expense (personal t)) all_trips);
  companion = first_companion t.companions;
  account_id = some t.account_id;
  sharing_type =
      if has_companion t.companions
      then SharingType.paid_self_shared
      else SharingType.paid_self_not_shared;
  payer = none;
  currency = none;
  repayment = none;
}

unfoldable pub expense_from_personal :
    PersonalExpense → List Tag → List Trip → Result (ExpenseForm Repayment)
unfolding transaction_tags personal_with
expense_from_personal t all_tags all_trips = do
  tags ← transaction_tags (personal_expense t) all_tags
  ok (personal_with t all_trips tags)

unfoldable pub expense_from_transaction :
    Expense → List Tag → List Trip → List TransactionLink → Result (ExpenseForm Repayment)
unfolding expense_from_third_party expense_from_personal
expense_from_transaction (third_party t) all_tags all_trips all_links =
    expense_from_third_party t all_tags all_trips all_links
expense_from_transaction (personal t) all_tags all_trips all_links =
    expense_from_personal t all_tags all_trips

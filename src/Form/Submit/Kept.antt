-- ===== src/Form/Submit/Kept.antt =====
-- A transaction that is opened in its form and submitted unchanged: the defaults of
-- frontend/components/txform and the request of frontend/actions/txform/index.ts.
use prosper.Prelude.{◌≡◌, String, Option, List, ok}
use prosper.Prelude.Int.{ℤ}
use prosper.Links.{TransactionLink}
use prosper.Model.Tag.{Tag}
use prosper.Model.Ledger.Forms.{FormInput}
use prosper.Transaction.{Income, Transfer}
use prosper.Transaction.Accessors.{transaction_tags}
use prosper.Form.Expense.Stored.{names_of}
use prosper.Form.Values.{Editable, Values}
use prosper.Form.Submit.{build_form, pick_tag_names}
use prosper.Form.Submit.Messages.{transaction_of, IsKept}

module _ (parse_date : String → Option ℤ) where
  abbrev pub IsSubmitted : Editable → List TransactionLink → List Tag → Values → Type 0
  IsSubmitted t links tags v =
      (input : FormInput) × (found : List Tag) × (build_form parse_date v ≡ ok input)
      × IsKept t links input
      × (transaction_tags (transaction_of t) tags ≡ ok found)
      × (pick_tag_names v ≡ names_of found)

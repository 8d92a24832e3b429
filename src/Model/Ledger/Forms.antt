-- ===== src/Model/Ledger/Forms.antt =====
-- The messages about forms in frontend/lib/grpc/gen/prosper/v1/ledger.ts: the drafts that the
-- backend proposes, and the request that records a form.
use prosper.Prelude.{ℕ, String, Bool, Option, List}
use prosper.Prelude.Int.{ℤ}
use prosper.Model.Ledger.{Timestamp}

pub data SharingType : Type 0 where
  unspecified : SharingType
  paid_self_not_shared paid_self_shared paid_other_owed paid_other_repaid : SharingType

pub data PbFormType : Type 0 where
  unspecified expense income transfer : PbFormType

-- The messages `StringCandidate`, `MoneyCandidate` and the others differ in the type of the value.
pub record Candidate (A : Type 0) : Type 0 where
  pub confidence : ℤ
  pub value : A

pub data OriginKind : Type 0 where
  unspecified open_banking : OriginKind

pub record OriginKey : Type 0 where
  pub kind : OriginKind
  pub key : String

pub record TransactionDraft : Type 0 where
  pub origins : List OriginKey
  pub recorded_transaction_ids : List ℕ
  pub form_type : List (Candidate PbFormType)
  pub timestamp : List (Candidate (Option Timestamp))
  pub amount : List (Candidate ℤ)
  pub own_share_amount : List (Candidate ℤ)
  pub amount_received : List (Candidate ℤ)
  pub account_from_id : List (Candidate ℕ)
  pub account_to_id : List (Candidate ℕ)
  pub category_id : List (Candidate ℕ)
  pub vendor : List (Candidate String)
  pub payer : List (Candidate String)
  pub description : List (Candidate String)
  pub companion : List (Candidate String)
  pub currency : List (Candidate String)
  pub sharing_type : List (Candidate SharingType)
  pub tags : List (Candidate (Option (List String)))
  pub trip_name : List (Candidate String)
  pub repayment_category_id : List (Candidate ℕ)
  pub parent_transaction_id : List (Candidate ℕ)

pub record RepaymentInput : Type 0 where
  pub account_id : ℕ
  pub timestamp : Timestamp
  pub category_id : ℕ

pub record ExpenseFormInput : Type 0 where
  pub timestamp : Timestamp
  pub description : String
  pub vendor : String
  pub category_id : ℕ
  pub account_id : Option ℕ
  pub currency : Option String
  pub payer : Option String
  pub companion : Option String
  pub amount_nanos : ℤ
  pub own_share_nanos : ℤ
  pub trip_name : Option String
  pub sharing_type : SharingType
  pub repayment : Option RepaymentInput

pub record IncomeFormInput : Type 0 where
  pub timestamp : Timestamp
  pub description : String
  pub payer : String
  pub category_id : ℕ
  pub account_id : ℕ
  pub amount_nanos : ℤ
  pub is_shared : Bool
  pub companion : Option String
  pub own_share_nanos : ℤ
  pub parent_transaction_id : Option ℕ

pub record TransferFormInput : Type 0 where
  pub timestamp : Timestamp
  pub description : String
  pub category_id : ℕ
  pub from_account_id : ℕ
  pub to_account_id : ℕ
  pub amount_sent_nanos : ℤ
  pub amount_received_nanos : ℤ

-- The `form` of the request. The variant without a form is never built.
pub data FormInput : Type 0 where
  expense : ExpenseFormInput → FormInput
  income : IncomeFormInput → FormInput
  transfer : TransferFormInput → FormInput

-- The request without its session.
pub record WriteTransactionFormRequest : Type 0 where
  pub transaction_id_to_supersede : Option ℕ
  pub tag_names : List String
  pub origins : List OriginKey
  pub form : FormInput

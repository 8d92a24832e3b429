-- ===== src/Model/Ledger.antt =====
-- The messages of the ledger service, frontend/lib/grpc/gen/prosper/v1/ledger.ts, with the fields
-- that the client reads, and frontend/lib/grpc/timestamp.ts.
--
-- A number of milliseconds is kept exactly, as an integer of nanoseconds: `nanos / 1e6` has six
-- decimals at most.
pub mod Forms
use prosper.Prelude.{ℕ, String, Bool, Option, none, some, List, Result, ok, err, missing_timestamp}
use prosper.Prelude.Int.{ℤ, pos, ◌+ℤ◌, ◌*ℤ◌}
use prosper.Model.Stock.{StockKey}

pub data LedgerAccountType : Type 0 where
  unspecified asset expense income equity currency_exchange receivable : LedgerAccountType

pub data TransactionType : Type 0 where
  unspecified expense income transfer third_party_expense opening_balance : TransactionType

pub data LinkType : Type 0 where
  unspecified refund debt_settling : LinkType

pub record Timestamp : Type 0 where
  pub seconds : ℤ
  pub nanos : ℤ

pub record LedgerAccount : Type 0 where
  pub id : ℕ
  pub type : LedgerAccountType
  pub bank_account_id : Option ℕ

pub record EntryLine : Type 0 where
  pub id : ℕ
  pub ledger_account_id : ℕ
  pub currency_code : Option String
  pub amount_nanos : ℤ

pub record SplitContext : Type 0 where
  pub companion_name : String
  pub companion_share_nanos : ℤ
  pub companion_paid_nanos : ℤ

pub record PbTransaction : Type 0 where
  pub id : ℕ
  pub iid : ℕ
  pub timestamp : Option Timestamp
  pub note : String
  pub type : TransactionType
  pub vendor : Option String
  pub payer : Option String
  pub category_id : Option ℕ
  pub trip_id : Option ℕ
  pub supersedes_id : Option ℕ
  pub is_void : Bool
  pub tag_ids : List ℕ
  pub lines : List EntryLine
  pub splits : List SplitContext

pub record PbTransactionLink : Type 0 where
  pub id : ℕ
  pub source_transaction_id : ℕ
  pub linked_transaction_id : ℕ
  pub link_type : LinkType

pub record PbBank : Type 0 where
  pub id : ℕ
  pub name : String
  pub display_order : ℤ

pub record PbBankAccount : Type 0 where
  pub id : ℕ
  pub name : String
  pub bank_id : ℕ
  pub currency_code : Option String
  pub stock : Option StockKey
  pub joint : Bool
  pub archived : Bool
  pub display_order : ℤ
  pub initial_balance_nanos : ℤ

pub record PbCategory : Type 0 where
  pub id : ℕ
  pub name : String
  pub display_order : ℤ
  pub parent_category_id : Option ℕ

pub record PbTag : Type 0 where
  pub id : ℕ
  pub name : String

pub record PbTrip : Type 0 where
  pub id : ℕ
  pub name : String
  pub destination : Option String
  pub start : Option Timestamp
  pub end_ : Option Timestamp

-- Nanoseconds in a second.
abbrev pub nanos_per_second : ℕ
nanos_per_second = 1_000_000_000

unfoldable pub timestamp_to_epoch : Option Timestamp → Result ℤ
timestamp_to_epoch none = err missing_timestamp
timestamp_to_epoch (some ts) = ok (ts.seconds *ℤ pos nanos_per_second +ℤ ts.nanos)

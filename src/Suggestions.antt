-- ===== src/Suggestions.antt =====
-- The drafts that are suggested for a new transaction:
-- frontend/components/txform/NewTransactionSuggestions.tsx, and `sameEvent` of
-- frontend/lib/txsuggestions/draft.ts.
pub mod Limit
pub mod Tests
use prosper.Prelude.{
  ℕ, ◌+◌, ◌-◌, String, Bool, true, false, not, ◌&&◌, ◌||◌, Option, none, some, List, [], ◌∷◌, ◌++◌,
  map, keep, find, take, length, ◌==◌, nat_eq, leb, ltb, nat_beq, if◌then◌else◌, present, Result,
  ok, err, or_throw, ◌>>=◌, missing_received,
}
use prosper.Prelude.Int.{ℤ, pos, neg_ℤ, leb_ℤ}
use prosper.Prelude.Maps.{Assoc, lookup, insert}
use prosper.Prelude.Sort.{sort}
use prosper.Prelude.Text.{codes, same_codes}
use prosper.Model.BankAccount.{BankAccount}
use prosper.Model.Ledger.{timestamp_to_epoch}
use prosper.Model.Ledger.Forms.{OriginKey, OriginKind, PbFormType, TransactionDraft}
use prosper.Form.{or_default}
use prosper.Form.Draft.{winner_value, winner_or, winner_timestamp, draft_form_type}

abbrev kind_digit : OriginKind → ℕ
kind_digit OriginKind.unspecified = b'0'
kind_digit OriginKind.open_banking = b'1'

-- `${o.kind}:${o.key}`
unfoldable pub origin_id : OriginKey → List ℕ
origin_id o = kind_digit o.kind ∷ b':' ∷ codes o.key

-- The order of texts.
unfoldable pub codes_le : List ℕ → List ℕ → Bool
codes_le [] ds = true
codes_le (c ∷ cs) [] = false
codes_le (c ∷ cs) (d ∷ ds) = ltb c d || nat_beq c d && codes_le cs ds

unfoldable pub origin_ids : List OriginKey → List (List ℕ)
unfolding origin_id codes_le
origin_ids origins = sort codes_le (map origin_id origins)

-- The test of the lengths, and `every`.
unfoldable pub same_ids : List (List ℕ) → List (List ℕ) → Bool
unfolding same_codes
same_ids [] [] = true
same_ids [] (b ∷ bs) = false
same_ids (a ∷ xs) [] = false
same_ids (a ∷ xs) (b ∷ bs) = same_codes a b && same_ids xs bs

-- `aIds.length > 0`
abbrev has_any {ℓ} : {A : Type ℓ} → List A → Bool
has_any [] = false
has_any (_ ∷ _) = true

unfoldable pub same_event : TransactionDraft → TransactionDraft → Bool
unfolding origin_ids same_ids
same_event a b =
    has_any (origin_ids a.origins) && same_ids (origin_ids a.origins) (origin_ids b.origins)

-- `timestampToEpoch(timestamp)`, or 0 without one.
unfoldable pub draft_timestamp_epoch : TransactionDraft → ℤ
unfolding winner_timestamp timestamp_to_epoch
draft_timestamp_epoch draft = elim (timestamp_to_epoch (winner_timestamp draft.timestamp)) [
  | ok epoch ↦ epoch
  | err e ↦ pos 0
]

abbrev append :
    ℕ → TransactionDraft → Assoc ℕ (List TransactionDraft) → Assoc ℕ (List TransactionDraft)
append account_id draft by_account =
    insert account_id (or_default (lookup account_id by_account) [] ++ draft ∷ []) by_account

-- `if (accountId) { append(accountId, draft); }`
abbrev append_if :
    Option ℕ → TransactionDraft → Assoc ℕ (List TransactionDraft) → Assoc ℕ (List TransactionDraft)
append_if none draft by_account = by_account
append_if (some id) draft by_account = append id draft by_account

unfoldable pub group_from :
    List TransactionDraft → Assoc ℕ (List TransactionDraft) → Assoc ℕ (List TransactionDraft)
unfolding winner_value
group_from [] by_account = by_account
group_from (draft ∷ drafts) by_account = group_from drafts (
    append_if (present (winner_value draft.account_to_id)) draft
      (append_if (present (winner_value draft.account_from_id)) draft by_account))

unfoldable pub group_drafts_by_account_id : List TransactionDraft → Assoc ℕ (List TransactionDraft)
unfolding group_from
group_drafts_by_account_id drafts = group_from drafts []

-- `draftsByAccountId.get(a.id)?.length`
unfoldable pub accounts_with_data :
    List BankAccount → Assoc ℕ (List TransactionDraft) → List BankAccount
unfolding lookup keep
accounts_with_data accounts by_account =
    keep (λ (a : BankAccount). has_any (or_default (lookup a.id by_account) [])) accounts

abbrev first_of : List BankAccount → Option BankAccount
first_of [] = none
first_of (a ∷ _) = some a

-- `accountsWithData.find(…) ?? accountsWithData[0] ?? null`
unfoldable pub active_account : Option ℕ → List BankAccount → Option BankAccount
unfolding find
active_account none accounts = first_of accounts
active_account (some id) accounts = elim (find (λ (a : BankAccount). a.id == id) accounts) [
  | some a ↦ some a
  | none ↦ first_of accounts
]

-- `[...props.items].sort((a, b) => draftTimestampEpoch(b) - draftTimestampEpoch(a))`
unfoldable pub sorted_items : List TransactionDraft → List TransactionDraft
unfolding draft_timestamp_epoch
sorted_items items = sort (λ a b. leb_ℤ (draft_timestamp_epoch b) (draft_timestamp_epoch a)) items

-- `useState(5)`
abbrev pub first_limit : ℕ
first_limit = 5

abbrev min : ℕ → ℕ → ℕ
min a b = if leb a b then a else b

-- `items.slice(0, limit).length`
abbrev pub shown : ℕ → ℕ → ℕ
shown limit items = min limit items

-- The button `more`, disabled when `limit >= items.length`.
unfoldable pub press_more : ℕ → ℕ → ℕ
press_more items limit = if leb items limit then limit else min (limit + 5) items

-- The button `less`, disabled when at most 5 items are shown.
unfoldable pub press_less : ℕ → ℕ → ℕ
press_less items limit = if leb (shown limit items) 5 then limit else limit - 5

unfoldable pub draft_title : TransactionDraft → String
unfolding draft_form_type winner_or
draft_title draft = elim (draft_form_type draft) [
  | PbFormType.income ↦ winner_or draft.payer ""
  | PbFormType.transfer ↦ winner_or draft.description ""
  | PbFormType.expense ↦ winner_or draft.vendor ""
  | PbFormType.unspecified ↦ winner_or draft.vendor ""
]

-- `winnerId(draft.accountToId) == accountId`
abbrev is_account : Option ℕ → ℕ → Bool
is_account none id = false
is_account (some a) id = a == id

-- `draftFormType` gives no other type, so the code's last throw has no case.
unfoldable pub signed_amount_for_account_nanos : TransactionDraft → ℕ → Result ℤ
unfolding draft_form_type winner_or winner_value
signed_amount_for_account_nanos draft account_id = elim (draft_form_type draft) [
  | PbFormType.income ↦ ok (winner_or draft.amount (pos 0))
  | PbFormType.expense ↦ ok (neg_ℤ (winner_or draft.amount (pos 0)))
  | PbFormType.unspecified ↦ ok (neg_ℤ (winner_or draft.amount (pos 0)))
  | PbFormType.transfer ↦
      if is_account (winner_value draft.account_to_id) account_id
      then or_throw (winner_value draft.amount_received) missing_received
      else ok (neg_ℤ (winner_or draft.amount (pos 0)))
]

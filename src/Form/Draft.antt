-- ===== src/Form/Draft.antt =====
-- What a draft proposes: frontend/lib/txsuggestions/candidate.ts and draft.ts.
pub mod Winner
use prosper.Prelude.{
  ℕ, String, Bool, true, false, ◌&&◌, Option, none, some, List, [], ◌∷◌, map, ◌==◌, nat_eq,
  string_eq, ltb, length, if◌then◌else◌, Result, ok, err, ◌>>=◌,
}
use prosper.Prelude.Int.{ℤ, pos, ltb_ℤ, div_trunc}
use prosper.Prelude.Sort.{sort}
use prosper.Prelude.Text.{codes}
use prosper.Model.Ledger.{Timestamp, timestamp_to_epoch}
use prosper.Model.Ledger.Forms.{
  Candidate, OriginKey, OriginKind, PbFormType, SharingType, TransactionDraft,
}
use prosper.Form.{FormTime, date, date_of_epoch, or_default}

module _ {A : Type 0} where
  -- The loop of `winner`, with `best` so far.
  unfoldable pub winner_from : Option (Candidate A) → List (Candidate A) → Option (Candidate A)
  winner_from best [] = best
  winner_from none (c ∷ cs) = winner_from (some c) cs
  winner_from (some best) (c ∷ cs) =
      winner_from (some (if ltb_ℤ best.confidence c.confidence then c else best)) cs

  unfoldable pub winner : List (Candidate A) → Option (Candidate A)
  unfolding winner_from
  winner cs = winner_from none cs

  -- `winner(cs)?.value`, which `winnerString`, `winnerId`, `winnerMoneyNanos`, `winnerFormType` and
  -- `winnerSharingType` return without a second argument.
  unfoldable pub winner_value : List (Candidate A) → Option A
  unfolding winner
  winner_value cs = elim (winner cs) [ none ↦ none | some c ↦ some c.value ]

  -- `winner(cs)?.value ?? f`
  unfoldable pub winner_or : List (Candidate A) → A → A
  unfolding winner_value
  winner_or cs f = or_default (winner_value cs) f

-- `winner(cs)?.value`, where the value of a message may be missing.
abbrev joined {ℓ} : {A : Type ℓ} → Option (Option A) → Option A
joined none = none
joined (some o) = o

unfoldable pub winner_timestamp : List (Candidate (Option Timestamp)) → Option Timestamp
unfolding winner_value
winner_timestamp cs = joined (winner_value cs)

unfoldable pub winner_tags : List (Candidate (Option (List String))) → List String → List String
unfolding winner_value
winner_tags cs f = or_default (joined (winner_value cs)) f

-- `timestampToDate`
unfoldable pub timestamp_to_date : Option Timestamp → Result FormTime
unfolding timestamp_to_epoch
timestamp_to_date ts = do epoch ← timestamp_to_epoch ts; ok (date_of_epoch epoch)

-- `today` is `startOfDay(new Date())`.
unfoldable pub draft_timestamp : ℤ → TransactionDraft → Result FormTime
unfolding winner_timestamp timestamp_to_date
draft_timestamp today draft = elim (winner_timestamp draft.timestamp) [
  | none ↦ ok (date (some today))
  | some ts ↦ timestamp_to_date (some ts)
]

unfoldable pub draft_amount_dollar : TransactionDraft → ℤ
unfolding winner_or
draft_amount_dollar draft = winner_or draft.amount (pos 0)

unfoldable pub draft_tag_names : TransactionDraft → List String
unfolding winner_tags
draft_tag_names draft = winner_tags draft.tags []

unfoldable pub draft_description : TransactionDraft → Option String
unfolding winner_value
draft_description draft = winner_value draft.description

-- The test on the value, and the fallback.
abbrev form_type_or_expense : Option PbFormType → PbFormType
form_type_or_expense (some PbFormType.income) = PbFormType.income
form_type_or_expense (some PbFormType.transfer) = PbFormType.transfer
form_type_or_expense _ = PbFormType.expense

unfoldable pub draft_form_type : TransactionDraft → PbFormType
unfolding winner_value
draft_form_type draft = form_type_or_expense (winner_value draft.form_type)

unfoldable pub is_recorded : TransactionDraft → Bool
is_recorded draft = ltb 0 (length draft.recorded_transaction_ids)

-- ===== src/Suggestions/Tests.antt =====
-- Tests of frontend/components/txform/NewTransactionSuggestions.tsx and of `sameEvent`, and the
-- theorem at a concrete input.
use prosper.Prelude.{
  ℕ, ◌+◌, ◌/◌, ◌≤◌, ◌≡◌, refl, String, true, false, List, [], ◌∷◌, length, take, err,
  missing_received,
}
use prosper.Prelude.Int.{pos}
use prosper.Prelude.Sort.{sort}
use prosper.Model.Ledger.Forms.{OriginKey, OriginKind, PbFormType, TransactionDraft}
use prosper.Suggestions.{first_limit, same_event, signed_amount_for_account_nanos, draft_title}
use prosper.Suggestions.Limit.{more, less, limit_after, press_times, limit_after-shows}

abbrev key_of : String → OriginKey
key_of key = record { kind = OriginKind.open_banking; key = key }

abbrev draft_from : List OriginKey → TransactionDraft
draft_from origins = record {
  origins = origins;
  recorded_transaction_ids = [];
  form_type = record { confidence = pos 1; value = PbFormType.transfer } ∷ [];
  timestamp = [];
  amount = [];
  own_share_amount = [];
  amount_received = [];
  account_from_id = [];
  account_to_id = record { confidence = pos 1; value = 3 } ∷ [];
  category_id = [];
  vendor = [];
  payer = [];
  description = record { confidence = pos 1; value = "rent" } ∷ [];
  companion = [];
  currency = [];
  sharing_type = [];
  tags = [];
  trip_name = [];
  repayment_category_id = [];
  parent_transaction_id = [];
}

-- The order of the origins does not matter.
reordered :
    same_event
      (draft_from (key_of "a" ∷ key_of "b" ∷ []))
      (draft_from (key_of "b" ∷ key_of "a" ∷ []))
    ≡ true
unfolding same_event sort
reordered = refl

-- Drafts without origins are of no event.
no_origins : same_event (draft_from []) (draft_from []) ≡ false
unfolding same_event sort
no_origins = refl

-- A transfer into the account says how much arrives.
nothing_received : signed_amount_for_account_nanos (draft_from []) 3 ≡ err missing_received
unfolding signed_amount_for_account_nanos
nothing_received = refl

title_of_transfer : draft_title (draft_from []) ≡ "rent"
unfolding draft_title
title_of_transfer = refl

-- After `more`, `less` leaves two of seven.
two_of_seven : limit_after (more 7 ∷ less 7 ∷ []) first_limit ≡ 2
unfolding limit_after
two_of_seven = refl

abbrev three : List ℕ
three = 1 ∷ 2 ∷ 3 ∷ []

limit_after-shows_example :
    (1 ≤ limit_after (more 7 ∷ less 7 ∷ []) first_limit)
    × (take
          (press_times
            (length three / 5 + 1)
            (length three)
            (limit_after (more 7 ∷ less 7 ∷ []) first_limit))
          three
        ≡ three)
limit_after-shows_example = limit_after-shows (more 7 ∷ less 7 ∷ []) three

-- ===== src/Versions/Tests.antt =====
-- Tests of `latestVersionOnly` of frontend/lib/ClientSideModel.tsx, and the theorems at concrete
-- inputs.
use prosper.Prelude.{
  ℕ, ◌≤◌, ◌≡◌, refl, Bool, true, false, Option, none, some, List, [], ◌∷◌, keep, ok, err,
  duplicate_active, ◌⊎◌,
}
use prosper.Model.Ledger.{PbTransaction, TransactionType}
use prosper.Versions.{superseded_ids, is_active, latest_version_only}
use prosper.Versions.Unique.{occurrences, latest_version_only_unique}

abbrev version : ℕ → ℕ → Option ℕ → Bool → PbTransaction
version id iid supersedes is_void = record {
  id = id;
  iid = iid;
  timestamp = none;
  note = "";
  type = TransactionType.expense;
  vendor = none;
  payer = none;
  category_id = none;
  trip_id = none;
  supersedes_id = supersedes;
  is_void = is_void;
  tag_ids = [];
  lines = [];
  splits = [];
}

-- An edited transaction, one that stands alone and a void one.
abbrev pub edited : List PbTransaction
edited =
    version 1 7 none false
    ∷ version 2 7 (some 1) false
    ∷ version 3 8 none false
    ∷ version 4 9 none true
    ∷ []

edited_once :
    latest_version_only edited ≡ ok (version 2 7 (some 1) false ∷ version 3 8 none false ∷ [])
unfolding latest_version_only
edited_once = refl

-- Two versions of the same transaction, neither superseded.
forked_refused :
    latest_version_only (version 1 7 none false ∷ version 2 7 none false ∷ [])
    ≡ err duplicate_active
unfolding latest_version_only
forked_refused = refl

latest_version_only_unique_example :
    let active = keep (is_active (superseded_ids edited)) edited in
    ((iid : ℕ) → occurrences iid active ≤ 1) × (latest_version_only edited ≡ ok active)
    ⊎ (iid : ℕ) × (2 ≤ occurrences iid active) × (latest_version_only edited ≡ err duplicate_active)
latest_version_only_unique_example = latest_version_only_unique edited

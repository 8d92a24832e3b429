-- ===== src/Versions.antt =====
-- `latestVersionOnly` of frontend/lib/ClientSideModel.tsx: an edit of a transaction is a new
-- version that supersedes the old one, and only the latest versions are shown.
--
-- The set of superseded ids is a list, asked for membership only.
pub mod Unique
pub mod Tests
use prosper.Prelude.{
  ℕ, ◌+◌, Bool, not, ◌&&◌, Option, none, some, List, [], ◌∷◌, ◌==◌, nat_eq, if◌then◌else◌, present,
  nat_beq, any, keep, Result, ok, err, ◌>>=◌, ◌>>◌, duplicate_active,
}
use prosper.Prelude.Maps.{Assoc, lookup, insert}
use prosper.Model.Ledger.{PbTransaction}

-- The first loop: the ids that some transaction supersedes.
unfoldable pub superseded_ids : List PbTransaction → List ℕ
superseded_ids [] = []
superseded_ids (tx ∷ txs) =
    let rest = superseded_ids txs in
    elim (present tx.supersedes_id) [ none ↦ rest | some id ↦ id ∷ rest ]

-- `superseded.has(id)`
unfoldable pub has : List ℕ → ℕ → Bool
unfolding any
has ids id = any (λ i. i == id) ids

unfoldable pub is_active : List ℕ → PbTransaction → Bool
unfolding has
is_active superseded tx = not (has superseded tx.id) && not tx.is_void

-- `m.get(k) ?? 0`
abbrev pub count_or_zero : Option ℕ → ℕ
count_or_zero none = 0
count_or_zero (some n) = n

unfoldable pub count_iids : List PbTransaction → Assoc ℕ ℕ → Assoc ℕ ℕ
unfolding lookup insert
count_iids [] counts = counts
count_iids (tx ∷ txs) counts =
    count_iids txs (insert tx.iid (count_or_zero (lookup tx.iid counts) + 1) counts)

-- The last loop: a transaction with several active versions is an error.
unfoldable pub check_counts : Assoc ℕ ℕ → Result (Unit {0})
check_counts [] = ok tt
check_counts ((iid, count) ∷ counts) =
    let rest = check_counts counts in if nat_beq count 1 then rest else err duplicate_active

unfoldable pub latest_version_only : List PbTransaction → Result (List PbTransaction)
unfolding superseded_ids is_active count_iids check_counts keep
latest_version_only transactions =
    let active = keep (is_active (superseded_ids transactions)) transactions in
    check_counts (count_iids active []) >> ok active

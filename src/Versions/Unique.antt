-- ===== src/Versions/Unique.antt =====
-- What `latestVersionOnly` of frontend/lib/ClientSideModel.tsx lets through, and when it throws.
use prosper.Prelude.{
  ℕ, ◌+◌, ◌≤◌, ◌≡◌, refl, true, false, none, some, List, [], ◌∷◌, arith, ◌==◌, nat_eq, nat_beq,
  if◌then◌else◌, present, any, keep, All, Bool-cases, ok, err, duplicate_active, ◌⊎◌, inl, inr, ◌↔◌,
  ◌≢◌,
}
use prosper.Prelude.Maps.{Assoc, lookup, insert, lookup-insert}
use prosper.Model.Ledger.{PbTransaction}
use prosper.Versions.{
  superseded_ids, has, is_active, count_or_zero, count_iids, check_counts, latest_version_only,
}

-- How many of the transactions are versions of the one with this iid.
pub occurrences : ℕ → List PbTransaction → ℕ
occurrences iid [] = 0
occurrences iid (tx ∷ txs) =
    let rest = occurrences iid txs in if tx.iid == iid then rest + 1 else rest

lookup-count_iids :
    (iid : ℕ) (txs : List PbTransaction) (counts : Assoc ℕ ℕ)
    → count_or_zero (lookup iid (count_iids txs counts))
      ≡ occurrences iid txs + count_or_zero (lookup iid counts)
unfolding count_iids occurrences
lookup-count_iids iid [] counts = omega arith
lookup-count_iids iid (tx ∷ txs) counts =
    let n = count_or_zero (lookup tx.iid counts) + 1 in
    ground
      (arith, lookup-count_iids iid txs (insert tx.iid n counts), lookup-insert tx.iid iid n counts)

-- A map that counts: each key once, and no count of 0.
abbrev IsCounting : Assoc ℕ ℕ → Type 0
IsCounting [] = Unit
IsCounting ((iid, count) ∷ counts) = (1 ≤ count) × (lookup iid counts ≡ none) × IsCounting counts

insert-IsCounting :
    (iid n : ℕ) (counts : Assoc ℕ ℕ) → 1 ≤ n → IsCounting counts → IsCounting (insert iid n counts)
unfolding insert lookup
insert-IsCounting iid n [] h k = (h, refl, tt)
insert-IsCounting iid n ((j, count) ∷ counts) h k = elim (Bool-cases (j == iid)) [
  | inl e ↦ rw e (h, k.1, k.2)
  | inr e ↦ rw e (
    k.0,
    rw (lookup-insert iid j n counts) (ground (arith, k.1)),
    insert-IsCounting iid n counts h k.2,
  )
]

count_iids-IsCounting :
    (txs : List PbTransaction) (counts : Assoc ℕ ℕ)
    → IsCounting counts
    → IsCounting (count_iids txs counts)
unfolding count_iids
count_iids-IsCounting [] counts h = h
count_iids-IsCounting (tx ∷ txs) counts h =
    count_iids-IsCounting txs _ (insert-IsCounting tx.iid _ counts (omega arith) h)

-- The last loop throws exactly when it counts some iid more than once.
check_counts-cases :
    (counts : Assoc ℕ ℕ)
    → IsCounting counts
    → ((iid : ℕ) → count_or_zero (lookup iid counts) ≤ 1) × (check_counts counts ≡ ok tt)
      ⊎ (iid : ℕ) × (2 ≤ count_or_zero (lookup iid counts))
        × (check_counts counts ≡ err duplicate_active)
unfolding check_counts lookup
check_counts-cases [] h = inl (λ iid. omega arith, refl)
check_counts-cases ((iid, count) ∷ counts) h = elim (Bool-cases (nat_beq count 1)) [
  | inr e ↦ inr (iid, ground (arith), rw e refl)
  | inl e ↦ elim (check_counts-cases counts h.2) [
    | inl (once, passes) ↦ inl (λ j. ground (arith, once j), rw e passes)
    | inr (j, twice, throws) ↦ inr (j, ground (arith), rw e throws)
  ]
]

-- The call throws exactly when two active versions have the same iid; else it gives the active
-- transactions, in their order.
pub latest_version_only_unique :
    (txs : List PbTransaction)
    → let active = keep (is_active (superseded_ids txs)) txs in
      ((iid : ℕ) → occurrences iid active ≤ 1) × (latest_version_only txs ≡ ok active)
      ⊎ (iid : ℕ) × (2 ≤ occurrences iid active) × (latest_version_only txs ≡ err duplicate_active)
unfolding latest_version_only lookup
latest_version_only_unique txs =
    let active = keep (is_active (superseded_ids txs)) txs in
    let counted = λ (iid : ℕ). lookup-count_iids iid active [] in
    elim (check_counts-cases (count_iids active []) (count_iids-IsCounting active [] tt)) [
      | inl (once, passes) ↦ inl (λ iid. omega (arith, once iid, counted iid), rw passes refl)
      | inr (iid, twice, throws) ↦ inr (iid, omega (arith, counted iid), rw throws refl)
    ]

-- A transaction is active exactly when it is not void and no transaction supersedes it.
is_active_iff :
    (txs : List PbTransaction) (tx : PbTransaction)
    → (is_active (superseded_ids txs) tx ≡ true)
      ↔ ((tx.is_void ≡ false) × All (λ other. present other.supersedes_id ≢ some tx.id) txs)
unfolding is_active superseded_ids has any
is_active_iff [] tx = ground arith
is_active_iff (other ∷ txs) tx = ground (arith, is_active_iff txs tx)

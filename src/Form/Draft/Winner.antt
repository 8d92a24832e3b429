-- ===== src/Form/Draft/Winner.antt =====
-- Which candidate wins: `winner` of frontend/lib/txsuggestions/candidate.ts.
use prosper.Prelude.{
  ◌≡◌, ◌⊎◌, refl, inl, inr, none, some, List, [], ◌∷◌, ◌++◌, All, Bool-cases, arith, ap, sym, subst,
}
use prosper.Prelude.Int.{◌≤ℤ◌, ◌<ℤ◌, ltb_ℤ}
use prosper.Model.Ledger.Forms.{Candidate}
use prosper.Form.Draft.{winner, winner_from}

module _ {A : Type 0} where
  abbrev IsAtMost : Candidate A → Candidate A → Type 0
  IsAtMost best c = c.confidence ≤ℤ best.confidence

  abbrev IsBelow : Candidate A → Candidate A → Type 0
  IsBelow best c = c.confidence <ℤ best.confidence

  -- The winner stands in the list, after candidates that are all below it and before candidates
  -- that are at most as confident.
  abbrev pub IsFirstBest : List (Candidate A) → Candidate A → Type 0
  IsFirstBest cs best =
      (front : List (Candidate A)) × (back : List (Candidate A)) × (cs ≡ front ++ best ∷ back)
      × All (IsBelow best) front
      × All (IsAtMost best) back

  abbrev IsBestWith : Candidate A → List (Candidate A) → Candidate A → Type 0
  IsBestWith best cs w = (w ≡ best) × All (IsAtMost best) cs ⊎ IsBelow w best × IsFirstBest cs w

  with_first :
      (c : Candidate A) (cs : List (Candidate A)) (w : Candidate A)
      → IsBestWith c cs w
      → IsFirstBest (c ∷ cs) w
  with_first c cs w (inl (e, all)) = subst (IsFirstBest (c ∷ cs)) (sym e) ([], cs, refl, tt, all)
  with_first c cs w (inr (below, (front, back, e, f, b))) =
      (c ∷ front, back, ap (λ xs. c ∷ xs) e, (below, f), b)

  above :
      (best c : Candidate A) (cs : List (Candidate A)) (w : Candidate A)
      → IsBelow c best
      → IsBestWith c cs w
      → IsBelow w best
  above best c cs w h (inl (e, all)) = subst (λ w. IsBelow w best) (sym e) h
  above best c cs w h (inr (below, first)) = omega arith

  kept :
      (best c : Candidate A) (cs : List (Candidate A)) (w : Candidate A)
      → IsAtMost best c
      → IsBestWith best cs w
      → IsBestWith best (c ∷ cs) w
  kept best c cs w h (inl (e, all)) = inl (e, (h, all))
  kept best c cs w h (inr (below, (front, back, e, f, b))) =
      inr (below, (c ∷ front, back, ap (λ xs. c ∷ xs) e, (omega arith, f), b))

  from_best :
      (best : Candidate A) (cs : List (Candidate A))
      → (w : Candidate A) × (winner_from (some best) cs ≡ some w) × IsBestWith best cs w
  unfolding winner_from
  from_best best [] = (best, refl, inl (refl, tt))
  from_best best (c ∷ cs) = elim (Bool-cases (ltb_ℤ best.confidence c.confidence)) [
    | inl more ↦ rw more (
        let (w, p, which) = from_best c cs in
        (w, p, inr (above best c cs w (ground arith) which, with_first c cs w which)))
    | inr less ↦
        rw less
          (let (w, p, which) = from_best best cs in (w, p, kept best c cs w (ground arith) which))
  ]

  -- There is a winner unless there are no candidates: the first of those that no candidate is more
  -- confident than.
  pub winner-IsFirstBest :
      (cs : List (Candidate A))
      → (cs ≡ []) × (winner cs ≡ none)
        ⊎ (best : Candidate A) × (winner cs ≡ some best) × IsFirstBest cs best
  unfolding winner winner_from
  winner-IsFirstBest [] = inl (refl, refl)
  winner-IsFirstBest (c ∷ cs) =
      let (w, p, which) = from_best c cs in inr (w, p, with_first c cs w which)

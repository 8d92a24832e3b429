-- ===== src/Suggestions/Limit.antt =====
-- The buttons `more` and `less` under the suggestions, in
-- frontend/components/txform/NewTransactionSuggestions.tsx.
use prosper.Prelude.{
  ℕ, zero, suc, ◌+◌, ◌*◌, ◌/◌, ◌≤◌, ◌≡◌, List, [], ◌∷◌, arith, refl, ap, length, take,
}
use prosper.Suggestions.{first_limit, press_more, press_less}

-- A press of a button, with the number of suggestions at the time: the limit stays when the account
-- is changed.
pub data Press : Type 0 where
  more : ℕ → Press
  less : ℕ → Press

unfoldable pub limit_after : List Press → ℕ → ℕ
unfolding press_more press_less
limit_after [] limit = limit
limit_after (more items ∷ presses) limit = limit_after presses (press_more items limit)
limit_after (less items ∷ presses) limit = limit_after presses (press_less items limit)

-- `more`, pressed a number of times.
unfoldable pub press_times : ℕ → ℕ → ℕ → ℕ
unfolding press_more
press_times zero items limit = limit
press_times (suc n) items limit = press_times n items (press_more items limit)

press_more-lower : (items limit : ℕ) → 1 ≤ limit → 1 ≤ press_more items limit
unfolding press_more
press_more-lower items limit h = ground arith

press_less-lower : (items limit : ℕ) → 1 ≤ limit → 1 ≤ press_less items limit
unfolding press_less
press_less-lower items limit h = ground arith

limit_after-lower : (presses : List Press) (limit : ℕ) → 1 ≤ limit → 1 ≤ limit_after presses limit
unfolding limit_after
limit_after-lower [] limit h = h
limit_after-lower (more items ∷ presses) limit h =
    limit_after-lower presses (press_more items limit) (press_more-lower items limit h)
limit_after-lower (less items ∷ presses) limit h =
    limit_after-lower presses (press_less items limit) (press_less-lower items limit h)

press_more-shown :
    (items limit n : ℕ) → items ≤ limit + 5 * suc n → items ≤ press_more items limit + 5 * n
unfolding press_more
press_more-shown items limit n h = ground arith

press_times-shown : (n items limit : ℕ) → items ≤ limit + 5 * n → items ≤ press_times n items limit
unfolding press_times
press_times-shown zero items limit h = omega arith
press_times-shown (suc n) items limit h =
    press_times-shown n items (press_more items limit) (press_more-shown items limit n h)

take-all {ℓ} : {A : Type ℓ} (n : ℕ) (xs : List A) → length xs ≤ n → take n xs ≡ xs
take-all zero [] h = refl
take-all zero (x ∷ xs) h = absurd (omega arith)
take-all (suc n) [] h = refl
take-all (suc n) (x ∷ xs) h = ap (λ ys. x ∷ ys) (take-all n xs (omega arith))

-- Whatever was pressed before, for however many suggestions, at least one is shown, if there are
-- any, and as many presses of `more` as there are fives among the suggestions, and one, show all.
pub limit_after-shows {ℓ} :
    {A : Type ℓ} (presses : List Press) (items : List A)
    → (1 ≤ limit_after presses first_limit)
      × (take
            (press_times (length items / 5 + 1) (length items) (limit_after presses first_limit))
            items
          ≡ items)
limit_after-shows presses items = (
  limit_after-lower presses first_limit (omega arith),
  take-all _ items (press_times-shown (length items / 5 + 1) (length items) _ (omega arith)),
)

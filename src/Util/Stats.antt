-- ===== src/Util/Stats.antt =====
-- frontend/lib/util/stats.tsx: percentiles, running averages and the largest entries.
--
-- The data are whole numbers, of nanos for instance, and exact, where the code has doubles; an
-- average is kept as its total and its count. A percentile and a window that are no integers, for
-- which the code throws as well, have no counterpart here.
pub mod Percentile
pub mod Averages
pub mod Largest
pub mod Tests
use prosper.Prelude.{
  ℕ, ◌+◌, ◌-◌, ◌*◌, ◌/◌, ltb, Bool, ◌||◌, not, Option, some, List, [], ◌∷◌, ◌++◌, map,
  if◌then◌else◌, take, drop, length, get_elem?, Result, ok, err, guard, ◌>>=◌, ◌>>◌, bad_percentile,
  no_data, bad_window, no_item,
}
use prosper.Prelude.Int.{ℤ, pos, ◌+ℤ◌, ◌-ℤ◌, pos_part, ltb_ℤ, leb_ℤ, int_beq, sum_from}
use prosper.Prelude.Sort.{sort}

-- `Math.ceil((data.length * p) / 100) - 1`, where the product is positive.
abbrev pub position_of : ℕ → ℕ → ℕ
position_of length p = (length * p + 99) / 100 - 1

-- What follows the test on `p`; an index out of range gives no value.
unfoldable pub percentile_of : List ℤ → ℤ → Result (Option ℤ)
unfolding sort
percentile_of [] p = err no_data
percentile_of (x ∷ xs) p =
    if int_beq p (pos 0)
    then ok (some x)
    else ok (get_elem? (sort leb_ℤ (x ∷ xs)) (position_of (length (x ∷ xs)) (pos_part p)))

unfoldable pub percentile : List ℤ → ℤ → Result (Option ℤ)
unfolding percentile_of
percentile items p =
    guard (not (ltb_ℤ p (pos 0) || ltb_ℤ (pos 100) p)) bad_percentile >> percentile_of items p

-- `sum / slidingWindow.length`
pub record Average : Type 0 where
  pub total : ℤ
  pub count : ℕ

-- `slidingWindow.shift()`, and the item taken off the sum.
unfoldable pub shift_left : List ℤ → ℤ → Result (List ℤ × ℤ)
shift_left [] sum = err no_item
shift_left (left_item ∷ sliding_window) sum = ok (sliding_window, sum -ℤ left_item)

-- What happens to the window and the sum once an amount is pushed.
unfoldable pub slide : ℕ → List ℤ → ℤ → Result (List ℤ × ℤ)
unfolding shift_left
slide window sliding_window sum =
    if ltb window (length sliding_window)
    then shift_left sliding_window sum
    else ok (sliding_window, sum)

-- The loop over the data.
unfoldable pub averages_from : ℕ → List ℤ → ℤ → List ℤ → Result (List Average)
unfolding slide
averages_from window sliding_window sum [] = ok []
averages_from window sliding_window sum (amount ∷ items) = do
  slid ← slide window (sliding_window ++ amount ∷ []) (sum +ℤ amount)
  averages ← averages_from window slid.0 slid.1 items
  ok (record { total = slid.1; count = length slid.0 } ∷ averages)

unfoldable pub running_average : List ℤ → ℤ → Result (List Average)
unfolding averages_from
running_average items window =
    guard (ltb_ℤ (pos 0) window) bad_window >> averages_from (pos_part window) [] (pos 0) items

pub record TopN {ℓ} (K : Type ℓ) : Type ℓ where
  pub top : List (K × ℤ)
  pub other_sum : ℤ
  pub other_count : ℕ

-- The comparator `b[1] - a[1]`: the larger first.
unfoldable pub larger_first {ℓ} : {K : Type ℓ} → K × ℤ → K × ℤ → Bool
larger_first a b = leb_ℤ b.1 a.1

unfoldable pub top_n {ℓ} : {K : Type ℓ} → List (K × ℤ) → ℕ → TopN K
unfolding sort larger_first sum_from
top_n items n =
    let sorted = sort larger_first items in
    let other_items = drop n sorted in
    record {
      top = take n sorted;
      other_sum = sum_from (pos 0) (map (λ e. e.1) other_items);
      other_count = length other_items;
    }

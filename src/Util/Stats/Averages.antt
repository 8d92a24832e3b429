-- ===== src/Util/Stats/Averages.antt =====
-- What `runningAverage` of frontend/lib/util/stats.tsx computes.
use prosper.Prelude.{ℕ, ◌-◌, List, [], ◌∷◌, ◌++◌, length, drop}
use prosper.Prelude.Int.{ℤ, sum}
use prosper.Util.Stats.{Average}

-- The last `n` items.
abbrev pub last : ℕ → List ℤ → List ℤ
last n items = drop (length items - n) items

abbrev pub average : List ℤ → Average
average items = record { total = sum items; count = length items }

-- After each item, the average of the last `window` of those read so far.
abbrev pub window_averages : ℕ → List ℤ → List ℤ → List Average
window_averages window before [] = []
window_averages window before (x ∷ items) =
    average (last window (before ++ x ∷ [])) ∷ window_averages window (before ++ x ∷ []) items

-- ===== src/Util/Sets/Tests.antt =====
-- Tests of frontend/lib/util/set.tsx, and the theorems at concrete inputs.
use prosper.Prelude.{◌≡◌, refl, [], ◌∷◌}
use prosper.Util.Sets.{intersect, union}
use prosper.Util.Sets.Counts.{count, smaller, count-intersect}

two_common : intersect (1 ∷ 2 ∷ 2 ∷ 3 ∷ []) (2 ∷ 5 ∷ 2 ∷ []) ≡ 2 ∷ 2 ∷ []
unfolding intersect
two_common = refl

one_of_each : union (1 ∷ 2 ∷ 2 ∷ []) (2 ∷ 3 ∷ []) ≡ 1 ∷ 2 ∷ 3 ∷ []
unfolding union
one_of_each = refl

two_in_common : count 2 (intersect (1 ∷ 2 ∷ 2 ∷ 3 ∷ []) (2 ∷ 5 ∷ 2 ∷ [])) ≡ smaller 2 2
two_in_common = count-intersect 2 (1 ∷ 2 ∷ 2 ∷ 3 ∷ []) (2 ∷ 5 ∷ 2 ∷ [])

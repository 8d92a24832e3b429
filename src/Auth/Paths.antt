-- ===== src/Auth/Paths.antt =====
-- Where a return path leads: `returnPathOrDefault` of frontend/lib/auth/redirect.ts.
use prosper.Prelude.{ℕ, Bool, false, ◌&&◌, ◌||◌, List, [], ◌∷◌, nat_beq, if◌then◌else◌}

-- A tab, or one of the two line ends, which a browser takes out of a URL before it reads it.
unfoldable pub is_removed : ℕ → Bool
is_removed c = nat_beq c 9 || nat_beq c 10 || nat_beq c 13

unfoldable pub removed : List ℕ → List ℕ
unfolding is_removed
removed [] = []
removed (c ∷ cs) = let rest = removed cs in if is_removed c then rest else c ∷ rest

-- Whether there is anything to take out.
unfoldable pub has_removed : List ℕ → Bool
unfolding is_removed
has_removed [] = false
has_removed (c ∷ cs) = is_removed c || has_removed cs

abbrev is_slash : ℕ → Bool
is_slash c = nat_beq c b'/' || nat_beq c b'\\'

-- Two slashes of either kind at the front name another host.
unfoldable pub names_host : List ℕ → Bool
names_host [] = false
names_host (c ∷ []) = false
names_host (c ∷ d ∷ rest) = is_slash c && is_slash d

-- Whether a browser leaves the site for the path.
unfoldable pub leads_off : List ℕ → Bool
unfolding removed names_host
leads_off path = names_host (removed path)

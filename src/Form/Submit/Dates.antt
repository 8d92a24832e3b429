-- ===== src/Form/Submit/Dates.antt =====
-- The dates of a form on the wire: `dateToTimestamp` and `timestampToEpoch` of
-- frontend/lib/grpc/timestamp.ts.
use prosper.Prelude.{ℕ, ◌≡◌, ◌↔◌, ◌⊎◌, inl, some, ok, arith, suc, ◌%◌, ap, ok-injective}
use prosper.Prelude.Int.{ℤ, pos, negsuc, ◌≤ℤ◌, ◌+ℤ◌, ◌*ℤ◌, rem_trunc, div_floor}
use prosper.Model.Ledger.{timestamp_to_epoch}
use prosper.Form.Submit.{date_to_timestamp}

abbrev nanos_of : ℤ → ℤ
nanos_of ms = ms *ℤ pos 1_000_000

-- The seconds, rounded down, and the rest, rounded towards 0, as one time.
abbrev put_together : ℤ → ℤ
put_together ms = div_floor ms 1_000 *ℤ pos 1_000_000_000 +ℤ nanos_of (rem_trunc ms 1_000)

from_1970 : (n : ℕ) → put_together (pos n) ≡ nanos_of (pos n)
unfolding div_floor rem_trunc ◌*ℤ◌ ◌+ℤ◌
from_1970 n = ground arith

before_1970 : (n : ℕ) → (put_together (negsuc n) ≡ nanos_of (negsuc n)) ↔ (suc n % 1_000 ≡ 0)
unfolding div_floor rem_trunc ◌*ℤ◌ ◌+ℤ◌
before_1970 n = ground arith

rem_trunc-negsuc : (n : ℕ) → (rem_trunc (negsuc n) 1_000 ≡ pos 0) ↔ (suc n % 1_000 ≡ 0)
unfolding rem_trunc
rem_trunc-negsuc n = ground arith

put_together_iff :
    (ms : ℤ) → (put_together ms ≡ nanos_of ms) ↔ ((pos 0 ≤ℤ ms) ⊎ (rem_trunc ms 1_000 ≡ pos 0))
put_together_iff (pos n) = (λ h. inl (omega arith), λ h. from_1970 n)
put_together_iff (negsuc n) = ground (arith, before_1970 n, rem_trunc-negsuc n)

-- A date is sent and read back as the same time exactly when it is not before 1970, or is a whole
-- number of seconds.
pub timestamp_to_epoch-date_to_timestamp :
    (ms : ℤ)
    → (timestamp_to_epoch (some (date_to_timestamp ms)) ≡ ok (ms *ℤ pos 1_000_000))
      ↔ ((pos 0 ≤ℤ ms) ⊎ (rem_trunc ms 1_000 ≡ pos 0))
unfolding timestamp_to_epoch date_to_timestamp
timestamp_to_epoch-date_to_timestamp ms =
    (λ h. (put_together_iff ms).0 (ok-injective h), λ h. ap (λ x. ok x) ((put_together_iff ms).1 h))

-- ===== src/Prelude/Division.antt =====
-- Products by a natural number, and the quotient rounded down.
use Prim.Native.Nat.{ℕ, suc, ◌+◌, ◌-◌, ◌*◌, ◌/◌, ◌≤◌, ◌<◌}
use mathlib.Core.Path.{◌≡◌, ap}
use native.Mathlib.Omega.{arith}
use native.Mathlib.Nat.{
  mul-le-mul_right, le-div_iff_mul-le, div-mul-le_self, le_trans, div-eq_of_lt-le,
}
use prosper.Prelude.Int.{
  ℤ, pos, negsuc, ◌+ℤ◌, ◌*ℤ◌, ◌≤ℤ◌, pos_part, neg_part, div_floor, int_laws, +ℤ_parts, eq_of_parts,
}

pub div_mono : (a b d : ℕ) → 0 < d → a ≤ b → a / d ≤ b / d
div_mono a b d p h = (le-div_iff_mul-le p).1 (le_trans (div-mul-le_self a d) h)

pub div_floor_mono : (a b : ℤ) (d : ℕ) → 0 < d → a ≤ℤ b → div_floor a d ≤ℤ div_floor b d
unfolding div_floor
div_floor_mono (pos m) (pos n) d p h = omega (arith, div_mono m n d p (omega arith))
div_floor_mono (pos m) (negsuc n) d p h = absurd (omega arith)
div_floor_mono (negsuc m) (pos n) d p h = omega arith
div_floor_mono (negsuc m) (negsuc n) d p h = omega (arith, div_mono n m d p (omega arith))

pub pos_part-*ℤ : (a : ℤ) (p : ℕ) → pos_part (a *ℤ pos p) ≡ pos_part a * p
unfolding ◌*ℤ◌
pos_part-*ℤ (pos n) p = ground arith
pos_part-*ℤ (negsuc n) p = ground arith

pub neg_part-*ℤ : (a : ℤ) (p : ℕ) → neg_part (a *ℤ pos p) ≡ neg_part a * p
unfolding ◌*ℤ◌
neg_part-*ℤ (pos n) p = ground arith
neg_part-*ℤ (negsuc n) p = grind arith

pub *ℤ_mono : (a b : ℤ) (p : ℕ) → a ≤ℤ b → a *ℤ pos p ≤ℤ b *ℤ pos p
*ℤ_mono a b p h = omega (arith, pos_part-*ℤ, neg_part-*ℤ, mul-le-mul_right p h)

pub +ℤ-*ℤ : (a b : ℤ) (p : ℕ) → (a +ℤ b) *ℤ pos p ≡ a *ℤ pos p +ℤ b *ℤ pos p
+ℤ-*ℤ a b p = omega (int_laws, pos_part-*ℤ, neg_part-*ℤ, ap (λ (t : ℕ). t * p) (+ℤ_parts a b))

pub *ℤ_assoc : (a : ℤ) (p q : ℕ) → a *ℤ pos p *ℤ pos q ≡ a *ℤ pos (p * q)
*ℤ_assoc a p q = eq_of_parts _ _ (
    rw
      (
        pos_part-*ℤ (a *ℤ pos p) q,
        neg_part-*ℤ (a *ℤ pos p) q,
        pos_part-*ℤ a p,
        neg_part-*ℤ a p,
        pos_part-*ℤ a (p * q),
        neg_part-*ℤ a (p * q),
      )
      (omega arith))

-- A multiple of `d` and a remainder below it.
pub div_floor-mul-add : (e : ℤ) (d r : ℕ) → r < d → div_floor (e *ℤ pos d +ℤ pos r) d ≡ e
unfolding div_floor
div_floor-mul-add (pos e) d r h =
    let whole : pos e *ℤ pos d +ℤ pos r ≡ pos (e * d + r) =
      omega (int_laws, pos_part-*ℤ, neg_part-*ℤ) in
    rw whole (ap pos (div-eq_of_lt-le d (omega arith) (omega arith)))
div_floor-mul-add (negsuc e) d r h =
    let whole : negsuc e *ℤ pos d +ℤ pos r ≡ negsuc (suc e * d - r - 1) =
      omega (int_laws, pos_part-*ℤ, neg_part-*ℤ) in
    rw whole (ap negsuc (div-eq_of_lt-le d (omega arith) (omega arith)))

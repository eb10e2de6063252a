-- ===== src/Processor/Hashes.antt =====
-- About nextMultipleOf of pkg/eventprocessor/impl/eventprocessor.go.
use native.Mathlib.Nat.{div-add-mod, mod-lt}
use go_tableland.Prelude.{
  ℤ, pos, negsuc, ◌≤ℤ◌, ◌<ℤ◌, ◌+ℤ◌, int_laws, ℕ, suc, ◌+◌, ◌-◌, ◌*◌, ◌/◌, ◌≤◌, ◌<◌, ◌≡◌, refl, inl,
  inr, arith, leb, Bool-cases,
}
use go_tableland.Processor.{next_multiple_of}

quotient_bounds : (a y : ℕ) → 0 < y → (a < y * (a / y) + y) × (y * (a / y) ≤ a)
quotient_bounds a y h = grind (arith, div-add-mod a y, mod-lt a h)

-- For a step above 0 and a block number of at least -1, nextMultipleOf is above the block number,
-- a multiple of the step, and at most one step above the block number.
pub next_multiple_of-Bounds :
    (x : ℤ) (y : ℕ)
    → 0 < y
    → negsuc 0 ≤ℤ x
    → (x <ℤ next_multiple_of x y)
      × ((k : ℕ) × (next_multiple_of x y ≡ pos (y * k)) × (pos (y * k) ≤ℤ (x +ℤ pos y)))
unfolding next_multiple_of
next_multiple_of-Bounds (pos x) y h b =
    let (lo, hi) = quotient_bounds (x + y) y h in
    (omega arith, ((x + y) / y, refl, omega (arith, int_laws)))
next_multiple_of-Bounds (negsuc k) y h b = elim (Bool-cases (leb (suc k) y)) [
  | inl e ↦ rw e (
      let (lo, hi) = quotient_bounds (y - suc k) y h in
      (omega arith, ((y - suc k) / y, refl, omega (arith, int_laws))))
  | inr e ↦ absurd (ground (arith, e, b, h))
]

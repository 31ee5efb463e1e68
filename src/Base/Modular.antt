-- ===== src/Base/Modular.antt =====
-- Positions on a ring of `l` slots.
use native.Mathlib.Nat.{mod-add-mod, mod-eq_of_lt, mod-eq-sub-mod, mod-lt}
use native.Mathlib.Decide.{dec_lt}
use Prim.Native.Nat.{ℕ, ◌+◌, ◌-◌, ◌%◌, ◌≤◌, ◌<◌}
use mathlib.Core.Path.{◌≡◌, sym, ◌∙◌}
use mathlib.Core.Logic.{◌≢◌, ◌⊎◌, inl, inr}
use native.Mathlib.Omega.{arith}

-- At most one turn on from `i`, a slot number has gone round once or not at all.
pub mod-add_cases :
    (l i m : ℕ)
    → 0 < l
    → m ≤ l
    → ((i % l + m < l) × ((i + m) % l ≡ i % l + m))
      ⊎ ((l ≤ i % l + m) × ((i + m) % l ≡ i % l + m - l))
mod-add_cases l i m hl hm = elim (dec_lt (i % l + m) l) [
  | yes p ↦ inl (p, sym (mod-add-mod i l m) ∙ mod-eq_of_lt p)
  | no p ↦
      let a : i % l < l = mod-lt i hl in
      inr (
        omega arith,
        sym (mod-add-mod i l m)
            ∙ mod-eq-sub-mod {n = i % l + m} {m = l} (omega arith)
            ∙ mod-eq_of_lt {n = i % l + m - l} {m = l} (omega arith),
      )
]

-- Positions closer than `l` have different slots.
pub mod-ne : (l i k : ℕ) → 0 < k → k < l → (i + k) % l ≢ i % l
mod-ne l i k hk hl e = elim (mod-add_cases l i k (omega arith) (omega arith)) [
  | inl a ↦ omega arith
  | inr b ↦ omega (arith, mod-lt i {m = l} (omega arith))
]

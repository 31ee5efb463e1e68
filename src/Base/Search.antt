-- ===== src/Base/Search.antt =====
-- Go's sort.Search: binary search for the least index at which a test holds. The test may panic
-- (`none`), and so does the search then.
use kubebrain.Base.Tests.{ltb}
use Prim.Native.Nat.{ℕ, zero, suc, ◌+◌, ◌-◌, ◌/◌, ◌≤◌, ◌<◌}
use mathlib.Core.Path.{◌≡◌}
use mathlib.Core.Bool.{Bool, true, false}
use mathlib.Core.Option.{Option, none, some}
use native.Mathlib.Omega.{arith}

-- `for i < j { h := (i + j) / 2; if !f(h) { i = h + 1 } else { j = h } }`; without fuel the result
-- is `none` too.
search_loop : ℕ → ℕ → ℕ → (ℕ → Option Bool) → Option ℕ
search_loop zero i j f = none
search_loop (suc fuel) i j f = elim (ltb i j) [
  | false ↦ some i
  | true ↦ elim (f ((i + j) / 2)) [
    | none ↦ none
    | some true ↦ search_loop fuel i ((i + j) / 2) f
    | some false ↦ search_loop fuel ((i + j) / 2 + 1) j f
  ]
]

-- The range shrinks in each round, so `n + 1` rounds are enough.
unfoldable pub search_index : ℕ → (ℕ → Option Bool) → Option ℕ
unfolding search_loop
search_index n f = search_loop (n + 1) 0 n f

-- The test fails below `k` and holds from `k` up to `n`, without a panic.
pub record Switches (n k : ℕ) (f : ℕ → Option Bool) : Type 0 where
  pub below : (i : ℕ) → i < k → f i ≡ some false
  pub above : (i : ℕ) → k ≤ i → i < n → f i ≡ some true

search_loop_lem :
    (fuel i j n k : ℕ) (f : ℕ → Option Bool)
    → Switches n k f
    → i ≤ k
    → k ≤ j
    → j ≤ n
    → j - i < fuel
    → search_loop fuel i j f ≡ some k
unfolding search_loop
search_loop_lem zero i j n k f s p q r h = absurd (omega arith)
search_loop_lem (suc fuel) i j n k f s p q r h = ground (
  arith,
  s.below ((i + j) / 2),
  s.above ((i + j) / 2),
  search_loop_lem fuel ((i + j) / 2 + 1) j n k f s,
  search_loop_lem fuel i ((i + j) / 2) n k f s,
)

-- If the test fails below `k` and holds from there on, the search returns `k`.
pub search_index_lem :
    (n k : ℕ) (f : ℕ → Option Bool) → k ≤ n → Switches n k f → search_index n f ≡ some k
unfolding search_index
search_index_lem n k f h s =
    search_loop_lem (n + 1) 0 n n k f s (omega arith) h (omega arith) (omega arith)

-- ===== src/Prelude/Rounds.antt =====
-- Counting on modulo a length reaches every index.
use Prim.Native.Nat.{ℕ, ◌+◌, ◌-◌, ◌*◌, ◌/◌, ◌%◌, ◌<◌}
use native.Mathlib.Nat.{
  mod-lt, add-mod-mod, add-mod_right, mul-add-mod_self_left, div-add-mod, mod-eq_of_lt,
}
use native.Mathlib.Omega.{arith}
use mathlib.Core.Path.{◌≡◌, ap, ◌∙◌}

-- Some count within a round hits any position.
pub round : (start j m : ℕ) → j < m → (k : ℕ) × (k < m) × ((start + k) % m ≡ j)
round start j m h =
    let k = (j + (m - start % m)) % m in
    let left : start % m < m = mod-lt start (omega arith) in
    let sum : start + (j + (m - start % m)) ≡ m * (start / m) + (j + m) =
      omega (arith, div-add-mod m start) in
    (
      k,
      mod-lt (j + (m - start % m)) (omega arith),
      add-mod-mod start (j + (m - start % m)) m
          ∙ ap (λ (i : ℕ). i % m) sum
          ∙ mul-add-mod_self_left m (start / m) (j + m)
          ∙ add-mod_right j m
          ∙ mod-eq_of_lt h,
    )

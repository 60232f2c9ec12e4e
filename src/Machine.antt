-- ===== src/Machine.antt =====
-- Machine integers and their overflow: a build with overflow checks panics, one without wraps.
use fred_rs.Prelude.{
  ℕ, zero, suc, ◌+◌, ◌-◌, ◌^◌, ◌%◌, ◌≤◌, ◌<◌, ◌≡◌, refl, ltb, leb, if◌then◌else◌, arith,
}

-- The two cargo profiles: `debug` checks arithmetic, `release` wraps around.
pub data Profile : Type 0 where
  debug release : Profile

-- `exhausted` is the end of a loop's fuel, and no outcome of the program.
pub data Outcome {ℓ} (A : Type ℓ) : Type ℓ where
  done : A → Outcome A
  panicked : Outcome A
  exhausted : Outcome A

infixl 5 ◌>>=◌
abbrev pub ◌>>=◌ {ℓ κ} : {A : Type ℓ} {B : Type κ} → Outcome A → (A → Outcome B) → Outcome B
done a >>= f = f a
panicked >>= f = panicked
exhausted >>= f = exhausted

abbrev pub usize_bound : ℕ
usize_bound = 2 ^ 64

abbrev pub u32_max : ℕ
u32_max = 2 ^ 32 - 1

abbrev pub u64_max : ℕ
u64_max = 2 ^ 64 - 1

abbrev wrapped : Profile → ℕ → Outcome ℕ
wrapped debug n = panicked
wrapped release n = done n

-- `a + b` on `usize`.
unfoldable pub usize_add : Profile → ℕ → ℕ → Outcome ℕ
usize_add p a b =
    if ltb (a + b) usize_bound then done (a + b) else wrapped p ((a + b) % usize_bound)

-- `a - b` on `usize`.
unfoldable pub usize_sub : Profile → ℕ → ℕ → Outcome ℕ
usize_sub p a b = if leb b a then done (a - b) else wrapped p ((a + usize_bound - b) % usize_bound)

-- `a + b` on `u32`.
unfoldable pub u32_add : Profile → ℕ → ℕ → Outcome ℕ
u32_add p a b = if leb (a + b) u32_max then done (a + b) else wrapped p ((a + b) % 2 ^ 32)

pub u32_add-done : (p : Profile) (a b : ℕ) → a + b ≤ u32_max → u32_add p a b ≡ done (a + b)
unfolding u32_add
u32_add-done p a b h = ground arith

pub usize_add-done : (p : Profile) (a b : ℕ) → a + b < usize_bound → usize_add p a b ≡ done (a + b)
unfolding usize_add
usize_add-done p a b h = ground arith

pub usize_sub-done : (p : Profile) (a b : ℕ) → b ≤ a → usize_sub p a b ≡ done (a - b)
unfolding usize_sub
usize_sub-done p a b h = ground arith

-- The subtraction that leaves the range.
pub usize_sub-release : usize_sub release 0 1 ≡ done u64_max
unfolding usize_sub
usize_sub-release = refl

pub usize_sub-debug : usize_sub debug 0 1 ≡ panicked
unfolding usize_sub
usize_sub-debug = refl

-- `a % b` on `usize`, which panics where `b` is 0.
abbrev pub usize_rem : ℕ → ℕ → Outcome ℕ
usize_rem a zero = panicked
usize_rem a (suc b) = done (a % suc b)

pub usize_rem-done : (a b : ℕ) → 0 < b → usize_rem a b ≡ done (a % b)
usize_rem-done a zero h = absurd (omega arith)
usize_rem-done a (suc b) h = refl

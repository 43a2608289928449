-- ===== src/Sizes.antt =====
-- daemon/sizes.hpp and daemon/sizes.cpp: arithmetic on sizes, which are 64 bits wide.
pub mod PowersOfTwo
use native.Mathlib.Nat.{one-le-pow, div-add-mod, mod-lt, mul_comm, mul-mod_left, add-mul}
use partake.Prelude.Bits.{pow_double}
use partake.Prelude.{
  ℕ, zero, suc, ◌+◌, ◌-◌, ◌*◌, ◌/◌, ◌%◌, ◌^◌, ◌≤◌, ◌<◌, ◌≡◌, Bool, false, not, Option, none, some,
  bit_and, ltb, ◌==◌, if◌then◌else◌, arith, ◌∙◌, ap,
}

abbrev threshold : ℕ
threshold = 2 ^ 20

-- `none`: it returns false, and leaves the size.
unfoldable pub round_up_or_check_size : ℕ → ℕ → Option ℕ
round_up_or_check_size size granularity =
    if granularity == 0
    then none
    else if size % granularity == 0
    then some size
    else if ltb granularity threshold
    then some ((size / granularity + 1) * granularity % 2 ^ 64)
    else none

unfoldable pub is_size_power_of_2 : ℕ → Bool
is_size_power_of_2 size = bit_and size (size - 1) == 0

-- `while (size != 1)`
unfoldable log2_loop : ℕ → ℕ → ℕ → Option ℕ
log2_loop zero size ret = none
log2_loop (suc fuel) size ret =
    let rest = log2_loop fuel (size / 2) (ret + 1) in if size == 1 then some ret else rest

-- A size has 64 bits, so the loop takes at most 64 rounds.
unfoldable pub log2_size : ℕ → Option ℕ
unfolding log2_loop
log2_size size = log2_loop 64 size 0

data UnitOfSize : Type 0 where
  one_byte bytes kib mib gib tib pib eib : UnitOfSize

-- The number and the unit that are shown.
unfoldable human_readable_size : ℕ → ℕ × UnitOfSize
human_readable_size size =
    if size == 0
    then (0, bytes)
    else if size == 1
    then (1, one_byte)
    else if not (size % 2 ^ 10 == 0)
    then (size, bytes)
    else if not (size / 2 ^ 10 % 2 ^ 10 == 0)
    then (size / 2 ^ 10, kib)
    else if not (size / 2 ^ 20 % 2 ^ 10 == 0)
    then (size / 2 ^ 20, mib)
    else if not (size / 2 ^ 30 % 2 ^ 10 == 0)
    then (size / 2 ^ 30, gib)
    else if not (size / 2 ^ 40 % 2 ^ 10 == 0)
    then (size / 2 ^ 40, tib)
    else if not (size / 2 ^ 50 % 2 ^ 10 == 0)
    then (size / 2 ^ 50, pib)
    else (size / 2 ^ 60, eib)

abbrev bytes_of : ℕ × UnitOfSize → ℕ
bytes_of (n, one_byte) = n
bytes_of (n, bytes) = n
bytes_of (n, kib) = n * 2 ^ 10
bytes_of (n, mib) = n * 2 ^ 20
bytes_of (n, gib) = n * 2 ^ 30
bytes_of (n, tib) = n * 2 ^ 40
bytes_of (n, pib) = n * 2 ^ 50
bytes_of (n, eib) = n * 2 ^ 60

-- The number that is shown is exact: with its unit, it is the size.
bytes_of-human_readable_size : (size : ℕ) → bytes_of (human_readable_size size) ≡ size
unfolding human_readable_size
bytes_of-human_readable_size size = ground arith

log2_loop-pow : (fuel k ret : ℕ) → k < fuel → log2_loop fuel (2 ^ k) ret ≡ some (ret + k)
unfolding log2_loop
log2_loop-pow zero k ret h = absurd (omega arith)
log2_loop-pow (suc fuel) zero ret h = ap some (omega arith)
log2_loop-pow (suc fuel) (suc k) ret h =
    let halved : 2 ^ suc k / 2 ≡ 2 ^ k = omega (arith, pow_double k) in
    let more : (2 ^ suc k == 1) ≡ false = ground (arith, pow_double k, one-le-pow k 2) in
    rw (more, halved) (log2_loop-pow fuel k (ret + 1) (omega arith) ∙ ap some (omega arith))

-- `log2_size` returns for every power of 2 that a size of 64 bits can be, with the exponent.
pub log2_size-pow : (k : ℕ) → k < 64 → log2_size (2 ^ k) ≡ some k
unfolding log2_size
log2_size-pow k h = log2_loop-pow 64 k 0 h ∙ ap some (omega arith)

-- The multiple of `g` after `size`.
round_up_step :
    (size g : ℕ)
    → 0 < g
    → ((size / g + 1) * g % g ≡ 0)
      × (size ≤ (size / g + 1) * g)
      × ((size / g + 1) * g ≡ size - size % g + g)
round_up_step size g pos =
    let e : (size / g + 1) * g ≡ size / g * g + g = add-mul (size / g) 1 g ∙ omega arith in
    let d : size / g * g + size % g ≡ size =
      omega (arith, div-add-mod size g, mul_comm (size / g) g) in
    (mul-mod_left (size / g + 1) g, omega (arith, e, d, mod-lt size pos), omega (arith, e, d))

-- If it succeeds on a size that leaves room for one more granule, the result is the least multiple
-- of the granularity that is not below the size.
round_up_lem :
    (size g r : ℕ)
    → size + g < 2 ^ 64
    → round_up_or_check_size size g ≡ some r
    → (r % g ≡ 0) × (size ≤ r) × (r < size + g)
unfolding round_up_or_check_size
round_up_lem size zero r small e = absurd (ground arith)
round_up_lem size (suc k) r small e =
    let (a, b, c) = round_up_step size (suc k) (omega arith) in ground (arith, a, b, c)

-- Whatever the granularity, the result is not below the size.
pub round_up-ge :
    (size g r : ℕ) → size + 2 ^ 20 < 2 ^ 64 → round_up_or_check_size size g ≡ some r → size ≤ r
unfolding round_up_or_check_size
round_up-ge size zero r small e = absurd (ground arith)
round_up-ge size (suc k) r small e =
    let (a, b, c) = round_up_step size (suc k) (omega arith) in ground (arith, b, c)

-- ===== src/SizeClass.antt =====
-- daemon/allocator.hpp, the free list of a chunk size: `countl_zero` and
-- `free_list_index_for_size`, for a 64-bit `std::size_t`.
use mathlib.Core.Option
use native.Mathlib.Decide.{dec_lt}
use native.Mathlib.Nat.{one-le-pow, pow-le-pow_right}
use partake.Prelude.{
  ℕ, zero, suc, ◌+◌, ◌-◌, ◌*◌, ◌/◌, ◌^◌, ◌≤◌, ◌<◌, bit_and, ◌≡◌, Option, none, some, arith, ◌==◌,
  if◌then◌else◌, ap, ◌∙◌,
}
use partake.Prelude.Bits.{pow_double, bit_and_high_clear, bit_and_high_set}

-- `while ((x & hi_bit) == 0) { ++ret; hi_bit >>= 1; }`, `none` if the fuel runs out.
unfoldable pub clz_loop : ℕ → ℕ → ℕ → ℕ → Option ℕ
clz_loop zero x ret hi_bit = none
clz_loop (suc fuel) x ret hi_bit =
    let rest = clz_loop fuel x (ret + 1) (hi_bit / 2) in
    if bit_and x hi_bit == 0 then rest else some ret

-- For a type of `w` bits: the loop has one round for each bit.
unfoldable pub countl_zero_software_nonzero : ℕ → ℕ → Option ℕ
unfolding clz_loop
countl_zero_software_nonzero w x = clz_loop w x 0 (2 ^ (w - 1))

-- The built-in functions of the compilers give what the portable branch computes.
unfoldable pub countl_zero : ℕ → ℕ
unfolding countl_zero_software_nonzero
countl_zero x = if x == 0 then 64 else Option.get_or (countl_zero_software_nonzero 64 x) 64

unfoldable pub free_list_index_for_size : ℕ → ℕ
unfolding countl_zero
free_list_index_for_size size = 64 - countl_zero (size - 1)

clz_loop-clear :
    (fuel x ret hi_bit : ℕ)
    → bit_and x hi_bit ≡ 0
    → clz_loop (suc fuel) x ret hi_bit ≡ clz_loop fuel x (ret + 1) (hi_bit / 2)
unfolding clz_loop
clz_loop-clear fuel x ret hi_bit h = ground arith

clz_loop-set :
    (fuel x ret hi_bit : ℕ) → 0 < bit_and x hi_bit → clz_loop (suc fuel) x ret hi_bit ≡ some ret
unfolding clz_loop
clz_loop-set fuel x ret hi_bit h = ground arith

-- The loop returns, with the number of clear bits above the highest one that is set.
clz_loop_lem :
    (j k x ret : ℕ)
    → 2 ^ k ≤ x
    → x < 2 ^ suc k
    → k ≤ j
    → clz_loop (suc j) x ret (2 ^ j) ≡ some (ret + (j - k))
clz_loop_lem zero zero x ret lo hi h =
    clz_loop-set 0 x ret 1 (omega (arith, bit_and_high_set 0 x lo hi)) ∙ ap some (omega arith)
clz_loop_lem zero (suc k) x ret lo hi h = absurd (omega arith)
clz_loop_lem (suc j) k x ret lo hi h = elim (dec_lt k (suc j)) [
  | no at_top ↦
      let e : k ≡ suc j = omega arith in
      let high : bit_and x (2 ^ suc j) ≡ 2 ^ suc j = rw (← e) (bit_and_high_set k x lo hi) in
      clz_loop-set (suc j) x ret (2 ^ suc j) (omega (arith, high, one-le-pow (suc j) 2))
      ∙ ap some (omega arith)
  | yes below ↦
      let small : 2 ^ suc k ≤ 2 ^ suc j = pow-le-pow_right (omega arith) (omega arith) in
      let halved : 2 ^ suc j / 2 ≡ 2 ^ j = omega (arith, pow_double j) in
      clz_loop-clear (suc j) x ret (2 ^ suc j) (bit_and_high_clear (suc j) x (omega arith))
      ∙ rw halved (ground (arith, clz_loop_lem j k x (ret + 1)))
]

-- A positive number lies between two neighbouring powers of two.
log2_bounds :
    (fuel x : ℕ) → 0 < x → x < 2 ^ fuel → (k : ℕ) × (k < fuel) × (2 ^ k ≤ x) × (x < 2 ^ suc k)
log2_bounds zero x pos h = absurd (omega arith)
log2_bounds (suc fuel) x pos h = elim (dec_lt x (2 ^ fuel)) [
  | yes below ↦ let (k, lt, lo, hi) = log2_bounds fuel x pos below in (k, omega arith, lo, hi)
  | no above ↦ (fuel, omega arith, omega arith, h)
]

countl_zero_lem : (k x : ℕ) → 2 ^ k ≤ x → x < 2 ^ suc k → k < 64 → countl_zero x ≡ 63 - k
unfolding countl_zero
countl_zero_lem k x lo hi h = ground (arith, clz_loop_lem 63 k x 0, one-le-pow k 2)

sub_one : (n : ℕ) → suc n - 1 ≡ n
sub_one n = omega arith

-- A chunk of `size` blocks, at least one and fewer than 2 ^ 64, belongs to the first list whose
-- power of two is at least `size`.
pub free_list_index_for_size_bounds :
    (size : ℕ)
    → 0 < size
    → size < 2 ^ 64
    → (size ≤ 2 ^ free_list_index_for_size size) × (2 ^ free_list_index_for_size size < 2 * size)
unfolding free_list_index_for_size
free_list_index_for_size_bounds zero pos h = elim pos [ ]
free_list_index_for_size_bounds (suc zero) pos h = omega arith
free_list_index_for_size_bounds (suc (suc n)) pos h =
    let (k, lt, lo, hi) = log2_bounds 64 (suc n) (omega arith) (omega arith) in
    let e : 64 - countl_zero (suc (suc n) - 1) ≡ suc k =
      rw (sub_one (suc n), countl_zero_lem k (suc n) lo hi lt) (omega arith) in
    rw e (omega (arith, pow_double k))

-- Of two chunks of at least one and fewer than 2 ^ 64 blocks, the larger never belongs to an
-- earlier list.
pub free_list_index_for_size_mono :
    (m n : ℕ) → 0 < m → m ≤ n → n < 2 ^ 64 → free_list_index_for_size m ≤ free_list_index_for_size n
free_list_index_for_size_mono m n pos le h =
    elim (dec_lt (free_list_index_for_size n) (free_list_index_for_size m)) [
      | no at_most ↦ omega arith
      | yes below ↦
          let apart : 2 ^ suc (free_list_index_for_size n) ≤ 2 ^ free_list_index_for_size m =
            pow-le-pow_right (omega arith) below in
          let (_, small) = free_list_index_for_size_bounds m pos (omega arith) in
          let (large, _) = free_list_index_for_size_bounds n (omega arith) h in
          absurd (omega (arith, pow_double (free_list_index_for_size n)))
    ]

-- ===== src/Prelude/Bits.antt =====
-- `&` and `|` at variables, from the recursion on binary digits that the native operations mean.
use Prim.Native.Nat.{
  ℕ, zero, suc, ◌+◌, ◌*◌, ◌/◌, ◌%◌, ◌^◌, ◌≤◌, ◌<◌, min, max, bit_and, bit_or, digits, bitwise,
  bit_and-bitwise, bit_or-bitwise,
}
use mathlib.Core.Path.{◌≡◌, refl, ap, ◌∙◌}
use native.Mathlib.Nat.{pow-suc}
use native.Mathlib.Decide.{dec_lt}
use native.Mathlib.Omega.{arith}

module _ (rest : ℕ → ℕ) (digit : ℕ → ℕ → ℕ) where
  -- One more round than the number has digits changes nothing.
  digits_once_more : (n x y : ℕ) → x ≤ n → digits rest digit (suc n) x y ≡ digits rest digit n x y
  digits_once_more zero zero y le = refl
  digits_once_more zero (suc x) y le = absurd (omega arith)
  digits_once_more (suc n) zero y le = refl
  digits_once_more (suc n) (suc x) y le =
      let deeper = digits_once_more n (suc x / 2) (y / 2) (omega arith) in rw deeper refl

  -- So the rounds may be counted by the number itself.
  digits_exact : (n x y : ℕ) → x ≤ n → digits rest digit n x y ≡ bitwise rest digit x y
  digits_exact zero zero y le = refl
  digits_exact zero (suc x) y le = absurd (omega arith)
  digits_exact (suc n) x y le = elim (dec_lt n x) [
    | yes all ↦ let same : x ≡ suc n = omega arith in rw same refl
    | no fewer ↦ digits_once_more n x y (omega arith) ∙ digits_exact n x y (omega arith)
  ]

  -- The lowest digit, and the digits above it.
  bitwise_digit :
      (x y : ℕ)
      → rest y ≡ rest (y / 2) * 2 + digit 0 (y % 2)
      → bitwise rest digit x y ≡ bitwise rest digit (x / 2) (y / 2) * 2 + digit (x % 2) (y % 2)
  bitwise_digit zero y e = e
  bitwise_digit (suc x) y e = rw (digits_exact x (suc x / 2) (y / 2) (omega arith)) refl

module _ (x y : ℕ) where
  bit_or_step : bit_or x y ≡ bit_or (x / 2) (y / 2) * 2 + max (x % 2) (y % 2)
  bit_or_step =
      rw (bit_or-bitwise x y, bit_or-bitwise (x / 2) (y / 2))
        (bitwise_digit (λ y. y) max x y (omega arith))

  pub bit_and_step : bit_and x y ≡ bit_and (x / 2) (y / 2) * 2 + min (x % 2) (y % 2)
  bit_and_step =
      rw (bit_and-bitwise x y, bit_and-bitwise (x / 2) (y / 2))
        (bitwise_digit (λ y. 0) min x y (omega arith))

-- A number and zero, where `bound` limits the digits.
zero_right : (bound x : ℕ) → x ≤ bound → (bit_or x 0 ≡ x) × (bit_and x 0 ≡ 0)
zero_right bound zero le = (refl, refl)
zero_right zero (suc x) le = absurd (omega arith)
zero_right (suc bound) (suc x) le =
    let (either, both) = zero_right bound (suc x / 2) (omega arith) in
    (omega (arith, bit_or_step (suc x) 0, either), omega (arith, bit_and_step (suc x) 0, both))

bit_or-zero : (x : ℕ) → bit_or x 0 ≡ x
bit_or-zero x = (zero_right x x (omega arith)).0

bit_and-zero : (x : ℕ) → bit_and x 0 ≡ 0
bit_and-zero x = (zero_right x x (omega arith)).1

pub pow_double : (k : ℕ) → 2 ^ suc k ≡ 2 * 2 ^ k
pow_double k = omega (arith, pow-suc 2 k)

mul-pow_double : (q k : ℕ) → q * 2 ^ suc k ≡ 2 * (q * 2 ^ k)
mul-pow_double q k = omega (arith, ap (λ (t : ℕ). q * t) (pow-suc 2 k))

-- A field below the low bits of another is joined to it by `|` as by `+`.
pub bit_or_disjoint : (k q r : ℕ) → r < 2 ^ k → bit_or (q * 2 ^ k) r ≡ q * 2 ^ k + r
bit_or_disjoint zero q r h = ground (arith, bit_or-zero q)
bit_or_disjoint (suc k) q r h = ground (
  arith,
  bit_or_step (q * 2 ^ suc k) r,
  mul-pow_double q k,
  pow_double k,
  bit_or_disjoint k q (r / 2) (omega (arith, pow_double k)),
)

-- In a number of `k + 1` bits, bit `k` is clear exactly below `2 ^ k`.
pub bit_and_high_clear : (k x : ℕ) → x < 2 ^ k → bit_and x (2 ^ k) ≡ 0
bit_and_high_clear zero zero h = refl
bit_and_high_clear zero (suc x) h = absurd (omega arith)
bit_and_high_clear (suc k) x h = ground (
  arith,
  bit_and_step x (2 ^ suc k),
  pow_double k,
  bit_and_high_clear k (x / 2) (omega (arith, pow_double k)),
)

pub bit_and_high_set : (k x : ℕ) → 2 ^ k ≤ x → x < 2 ^ suc k → bit_and x (2 ^ k) ≡ 2 ^ k
bit_and_high_set zero x lo hi = ground (arith, bit_and_step x 1, bit_and-zero (x / 2))
bit_and_high_set (suc k) x lo hi = ground (
  arith,
  bit_and_step x (2 ^ suc k),
  pow_double k,
  pow_double (suc k),
  bit_and_high_set k (x / 2) (omega (arith, pow_double k))
      (omega (arith, pow_double k, pow_double (suc k))),
)

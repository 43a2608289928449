-- ===== src/Sizes/PowersOfTwo.antt =====
-- daemon/sizes.hpp: `is_size_power_of_2` finds the powers of 2.
use native.Mathlib.Nat.{one-le-pow}
use partake.Prelude.Bits.{pow_double, bit_and_step}
use partake.Prelude.{
  ℕ, zero, suc, ◌-◌, ◌*◌, ◌/◌, ◌%◌, ◌^◌, ◌≤◌, ◌<◌, ◌≡◌, true, bit_and, arith, ◌∙◌, ap, refl, ◌⊎◌,
  inl, inr, ◌↔◌,
}
use partake.Sizes.{is_size_power_of_2}

bit_and_self : (bound x : ℕ) → x ≤ bound → bit_and x x ≡ x
bit_and_self zero x h = let e : x ≡ 0 = omega arith in rw e refl
bit_and_self (suc n) zero h = refl
bit_and_self (suc n) (suc x) h =
    omega (arith, bit_and_step (suc x) (suc x), bit_and_self n (suc x / 2) (omega arith))

parity : (x : ℕ) → (x % 2 ≡ 0) ⊎ (x % 2 ≡ 1)
parity x = ground arith

-- Halving an even number.
even_step : (g : ℕ) → 0 < g → g % 2 ≡ 0 → bit_and g (g - 1) ≡ bit_and (g / 2) (g / 2 - 1) * 2
even_step g pos e =
    let half : (g - 1) / 2 ≡ g / 2 - 1 = omega arith in
    bit_and_step g (g - 1) ∙ rw half (omega arith)

odd_step : (g : ℕ) → g % 2 ≡ 1 → bit_and g (g - 1) ≡ g / 2 * 2
odd_step g e =
    let half : (g - 1) / 2 ≡ g / 2 = omega arith in
    bit_and_step g (g - 1) ∙ rw half (omega (arith, bit_and_self (g / 2) (g / 2) (omega arith)))

power_found : (bound g : ℕ) → g ≤ bound → 0 < g → bit_and g (g - 1) ≡ 0 → (k : ℕ) × (g ≡ 2 ^ k)
power_found zero g le pos e = absurd (omega arith)
power_found (suc n) g le pos e = elim (parity g) [
  | inl even ↦
      let (k, p) =
        power_found n (g / 2) (omega arith) (omega arith)
          (omega (arith, e, even_step g pos even)) in
      (suc k, omega (arith, p, pow_double k, even))
  | inr odd ↦ (0, omega (arith, e, odd_step g odd))
]

power_passes : (k : ℕ) → bit_and (2 ^ k) (2 ^ k - 1) ≡ 0
power_passes zero = refl
power_passes (suc k) =
    let half : 2 ^ suc k / 2 ≡ 2 ^ k = omega (arith, pow_double k) in
    even_step (2 ^ suc k) (omega (arith, one-le-pow (suc k) 2)) (omega (arith, pow_double k))
    ∙ rw half (omega (arith, power_passes k))

power_of_2_found : (g : ℕ) → 0 < g → is_size_power_of_2 g ≡ true → (k : ℕ) × (g ≡ 2 ^ k)
unfolding is_size_power_of_2
power_of_2_found g pos e = power_found g g (omega arith) pos (ground (arith, e))

is_size_power_of_2-pow : (k : ℕ) → is_size_power_of_2 (2 ^ k) ≡ true
unfolding is_size_power_of_2
is_size_power_of_2-pow k = ground (arith, power_passes k)

-- Of the sizes that are not 0, the powers of 2 pass the test, and no others.
pub is_size_power_of_2_iff :
    (g : ℕ) → 0 < g → (is_size_power_of_2 g ≡ true) ↔ ((k : ℕ) × (g ≡ 2 ^ k))
is_size_power_of_2_iff g pos =
    (power_of_2_found g pos, λ (k, e). ap is_size_power_of_2 e ∙ is_size_power_of_2-pow k)

-- ===== src/Cli/Config/Granularity.antt =====
-- daemon/cli.cpp: the allocation granularity; and names that are accepted although they should not
-- be.
use native.Mathlib.Nat.{pow-le-pow_right}
use native.Mathlib.Decide.{dec_lt}
use partake.Prelude.{
  ℕ, ◌-◌, ◌^◌, ◌≡◌, ◌<◌, ◌≤◌, ◌==◌, Bool, true, false, ◌&&◌, ◌∷◌, arith, refl, ap, sym, ◌∙◌, ◌⊎◌,
  inl, inr, Bool-cases, ltb, leb,
}
use partake.Sizes.{is_size_power_of_2, log2_size-pow}
use partake.Sizes.PowersOfTwo.{is_size_power_of_2_iff}
use partake.System.{Text, pos}
use partake.Cli.Names.{expected, validate_sysv_shmem_name}
use partake.Cli.Config.{validate_granularity, log2_of, min_gran}

pow_mono : (j k : ℕ) → j ≤ k → 2 ^ j ≤ 2 ^ k
pow_mono j k h = pow-le-pow_right (omega arith) h

pow_bound : (j k : ℕ) → 2 ^ k < 2 ^ j → k < j
pow_bound j k h = elim (dec_lt k j) [
  | yes less ↦ less
  | no more ↦ absurd (omega (arith, pow_mono j k (omega arith)))
]

accepted_pow :
    (k r : ℕ) → 2 ^ k < 2 ^ 64 → validate_granularity (2 ^ k) ≡ expected r → 512 ≤ 2 ^ k → r ≡ k
unfolding validate_granularity
accepted_pow k r small e big =
    let found : log2_of (2 ^ k) ≡ k = rw (log2_of, log2_size-pow k (pow_bound 64 k small)) refl in
    ground (arith, e, found, big)

-- A granularity that is accepted is none, or a power of 2 that is at least 512; its logarithm is
-- exact.
pub validate_granularity-accepted :
    (g r : ℕ)
    → g < 2 ^ 64
    → validate_granularity g ≡ expected r
    → ((g ≡ 0) × (r ≡ 0)) ⊎ ((g ≡ 2 ^ r) × (9 ≤ r))
unfolding validate_granularity
validate_granularity-accepted g r small e = elim (Bool-cases (g == 0)) [
  | inl z ↦ inl (ground arith, ground (arith, e, z))
  | inr z ↦ elim (Bool-cases (is_size_power_of_2 g)) [
    | inr no_power ↦ absurd (ground (arith, e, z, no_power))
    | inl power ↦ elim (Bool-cases (ltb g min_gran)) [
      | inl little ↦ absurd (ground (arith, e, z, power, little))
      | inr big ↦
          let (k, p) = (is_size_power_of_2_iff g (ground arith)).0 power in
          let large : 512 ≤ 2 ^ k = ground (arith, p, big) in
          let same : r ≡ k =
            accepted_pow k r (omega (arith, p, small)) (sym (ap validate_granularity p) ∙ e)
              large in
          inr (
            p ∙ ap (λ t. 2 ^ t) (sym same),
            elim (dec_lt r 9) [
              | yes less ↦ absurd (omega (arith, large, same, pow_mono k 8 (omega arith)))
              | no more ↦ omega arith
            ],
          )
    ]
  ]
]

abbrev is_digit : ℕ → Bool
is_digit c = leb 48 c && leb c 57

-- A key is read from the digit at the start of a name, whatever follows it, if that is no digit.
validate_sysv_shmem_name-trailing :
    (c d : ℕ) (rest : Text)
    → is_digit c ≡ true
    → is_digit d ≡ false
    → validate_sysv_shmem_name (c ∷ d ∷ rest) ≡ expected (pos (c - 48))
unfolding validate_sysv_shmem_name
validate_sysv_shmem_name-trailing c d rest a b = ground (arith, a, b)

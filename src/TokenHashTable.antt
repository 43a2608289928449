-- ===== src/TokenHashTable.antt =====
-- daemon/token_hash_table.hpp: how many buckets a table has. The number is a power of 2, as the
-- container asks.
use native.Mathlib.Nat.{pow-le-pow_right}
use native.Mathlib.Decide.{dec_lt}
use partake.Prelude.Bits.{pow_double}
use partake.Prelude.{
  ℕ, zero, suc, ◌*◌, ◌/◌, ◌^◌, ◌≤◌, ◌<◌, ◌≡◌, refl, Bool, ◌&&◌, max, ltb, if◌then◌else◌, arith,
  Bool-cases, inl, inr, sym,
}

abbrev initial_buckets : ℕ
initial_buckets = 8

-- `rehash_if_appropriate`: the number of buckets after it.
unfoldable pub rehash_if_appropriate : Bool → ℕ → ℕ → ℕ
rehash_if_appropriate allow_shrink current usage =
    if ltb (current / 2 * 3) usage
    then 2 * current
    else if allow_shrink && ltb usage (current / 8)
    then max 8 (current / 4)
    else current

-- A quarter of the buckets, but at least 8.
quarter : (k : ℕ) → 3 ≤ k → (j : ℕ) × (3 ≤ j) × (max 8 (2 ^ k / 4) ≡ 2 ^ j)
quarter zero h = absurd (omega arith)
quarter (suc zero) h = absurd (omega arith)
quarter (suc (suc k)) h =
    let e : 2 ^ suc (suc k) / 4 ≡ 2 ^ k = omega (arith, pow_double k, pow_double (suc k)) in
    elim (dec_lt k 3) [
      | yes few ↦
          let le : 2 ^ k ≤ 2 ^ 3 = pow-le-pow_right (omega arith) {j = 3} (omega arith) in
          (3, omega arith, rw e (omega arith))
      | no many ↦
          let ge : 2 ^ 3 ≤ 2 ^ k = pow-le-pow_right (omega arith) {i = 3} (omega arith) in
          (k, omega arith, rw e (omega arith))
    ]

-- From a power of 2 that is at least 8, the number of buckets stays one.
rehash-pow :
    (k usage : ℕ) (allow_shrink : Bool)
    → 3 ≤ k
    → (j : ℕ) × (3 ≤ j) × (rehash_if_appropriate allow_shrink (2 ^ k) usage ≡ 2 ^ j)
unfolding rehash_if_appropriate
rehash-pow k usage allow_shrink h = elim (Bool-cases (ltb (2 ^ k / 2 * 3) usage)) [
  | inl e ↦ rw e (suc k, omega arith, sym (pow_double k))
  | inr e ↦ elim (Bool-cases (allow_shrink && ltb usage (2 ^ k / 8))) [
    | inl f ↦ rw (e, f) (quarter k h)
    | inr f ↦ rw (e, f) (k, h, refl)
  ]
]

at_least_8 : (k : ℕ) → 3 ≤ k → 2 ^ 3 ≤ 2 ^ k
at_least_8 k h = pow-le-pow_right (omega arith) {i = 3} h

-- A table that grew does not shrink at the next call with as many elements.
rehash_grown :
    (k usage : ℕ) (allow_shrink : Bool)
    → 3 ≤ k
    → 2 ^ k < rehash_if_appropriate allow_shrink (2 ^ k) usage
    → rehash_if_appropriate allow_shrink (2 ^ k) usage
      ≤ rehash_if_appropriate allow_shrink (rehash_if_appropriate allow_shrink (2 ^ k) usage) usage
unfolding rehash_if_appropriate
rehash_grown k usage allow_shrink h grown = ground (arith, at_least_8 k h, grown)

-- One that shrank does not grow at the next call with as many elements.
rehash_shrunk :
    (k usage : ℕ) (allow_shrink : Bool)
    → 3 ≤ k
    → rehash_if_appropriate allow_shrink (2 ^ k) usage < 2 ^ k
    → rehash_if_appropriate allow_shrink (rehash_if_appropriate allow_shrink (2 ^ k) usage) usage
      ≤ rehash_if_appropriate allow_shrink (2 ^ k) usage
unfolding rehash_if_appropriate
rehash_shrunk k usage allow_shrink h shrunk = ground (arith, at_least_8 k h, shrunk)

-- A table that grew does not shrink at the next call with as many elements, and one that shrank
-- does not grow.
pub rehash_steady :
    (k usage : ℕ) (allow_shrink : Bool)
    → 3 ≤ k
    → (let once = rehash_if_appropriate allow_shrink (2 ^ k) usage in
        let twice = rehash_if_appropriate allow_shrink once usage in
        (2 ^ k < once → once ≤ twice) × (once < 2 ^ k → twice ≤ once))
rehash_steady k usage allow_shrink h =
    (rehash_grown k usage allow_shrink h, rehash_shrunk k usage allow_shrink h)

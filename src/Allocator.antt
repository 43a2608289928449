-- ===== src/Allocator.antt =====
-- daemon/allocator.hpp: `basic_allocator`, which presents the arena's blocks of 2 ^ `shift` bytes
-- in bytes. A size is 64 bits wide; `<<` keeps the low 64 bits.
use native.Mathlib.Nat.{
  mul-le-mul_right, div-mul-le_self, mod-eq_of_lt, one-le-pow, lt-div-mul-add, add-mul, div-le_self,
}
use partake.Prelude.{
  ℕ, zero, suc, ◌+◌, ◌-◌, ◌*◌, ◌/◌, ◌%◌, ◌^◌, ◌≤◌, ◌<◌, ◌≡◌, Option, ◌==◌, if◌then◌else◌, arith,
  ◌⊎◌, inl, inr, ◌∙◌,
}
use partake.Arena.{Arena, arena, allocate}
use partake.Arena.Invariant.{AreApart}
use partake.Arena.Lifetime.{Reach, Held, holds, held_apart}

-- The constructor.
unfoldable pub allocator : ℕ → ℕ → Arena
allocator size shift = arena (size / 2 ^ shift)

-- The number of blocks that an allocation of `size` bytes takes.
unfoldable pub blocks_for : ℕ → ℕ → ℕ
blocks_for shift size = if size == 0 then 0 else (size - 1) / 2 ^ shift + 1

unfoldable pub allocate_bytes : ℕ → ℕ → Arena → Option (ℕ × Arena)
unfolding blocks_for
allocate_bytes shift size a = allocate a (blocks_for shift size)

-- `allocation::offset` and `allocation::size`, of an allocation from block `start` or of `count`
-- blocks.
unfoldable pub offset : ℕ → ℕ → ℕ
offset shift start = start * 2 ^ shift % 2 ^ 64

unfoldable pub allocation_size : ℕ → ℕ → ℕ
allocation_size shift count = count * 2 ^ shift % 2 ^ 64

-- The blocks for at least one byte are enough for the bytes, and one block fewer would not be.
blocks_for_bounds :
    (shift size : ℕ)
    → 0 < size
    → (size ≤ blocks_for shift size * 2 ^ shift)
      × (blocks_for shift size * 2 ^ shift < size + 2 ^ shift)
unfolding blocks_for
blocks_for_bounds shift zero h = absurd (omega arith)
blocks_for_bounds shift (suc n) h =
    let p : 0 < 2 ^ shift = one-le-pow shift 2 (omega arith) in
    let e : (n / 2 ^ shift + 1) * 2 ^ shift ≡ n / 2 ^ shift * 2 ^ shift + 2 ^ shift =
      add-mul (n / 2 ^ shift) 1 (2 ^ shift) ∙ omega arith in
    ground (arith, e, lt-div-mul-add {a = n} p, div-mul-le_self n (2 ^ shift), pred n)
  where
    pred : (n : ℕ) → suc n - 1 ≡ n
    pred n = omega arith

module _ (size shift : ℕ) {a : Arena} {held : Held} (small : size < 2 ^ 64)
    (r : Reach (size / 2 ^ shift) a held) where
  bytes_end : (s n : ℕ) → s + n ≤ size / 2 ^ shift → s * 2 ^ shift + n * 2 ^ shift ≤ size
  bytes_end s n h = omega (
    arith,
    add-mul s n (2 ^ shift),
    mul-le-mul_right (2 ^ shift) h,
    div-mul-le_self size (2 ^ shift),
  )

  blocks_small : size / 2 ^ shift < 2 ^ 64
  blocks_small = omega (arith, div-le_self size (2 ^ shift))

  scaled :
      (s n t m : ℕ)
      → AreApart s n t m
      → AreApart (s * 2 ^ shift) (n * 2 ^ shift) (t * 2 ^ shift) (m * 2 ^ shift)
  scaled s n t m (inl h) =
      inl (omega (arith, add-mul s n (2 ^ shift), mul-le-mul_right (2 ^ shift) h))
  scaled s n t m (inr h) =
      inr (omega (arith, add-mul t m (2 ^ shift), mul-le-mul_right (2 ^ shift) h))

  -- In a segment of fewer than 2 ^ 64 bytes, the bytes of an allocation that is held lie in the
  -- segment: neither their offset nor their number overflows.
  allocation_within :
      (s n : ℕ)
      → 0 < holds s n held
      → (offset shift s ≡ s * 2 ^ shift)
        × (allocation_size shift n ≡ n * 2 ^ shift)
        × (offset shift s + allocation_size shift n ≤ size)
  unfolding offset allocation_size
  allocation_within s n h =
      let (inside, once, alone) = held_apart (size / 2 ^ shift) blocks_small r s n s n h h in
      let e = bytes_end s n inside in
      let es : s * 2 ^ shift % 2 ^ 64 ≡ s * 2 ^ shift = mod-eq_of_lt (omega arith) in
      let en : n * 2 ^ shift % 2 ^ 64 ≡ n * 2 ^ shift = mod-eq_of_lt (omega arith) in
      (es, en, omega arith)

  -- Two allocations that are held, in a segment of fewer than 2 ^ 64 bytes, are one and the same,
  -- or share no byte.
  allocations_apart :
      (s n t m : ℕ)
      → 0 < holds s n held
      → 0 < holds t m held
      → ((s ≡ t) × (n ≡ m))
        ⊎ AreApart
            (offset shift s)
            (allocation_size shift n)
            (offset shift t)
            (allocation_size shift m)
  allocations_apart s n t m hs ht =
      let (es, en, _) = allocation_within s n hs in
      let (et, em, _) = allocation_within t m ht in
      let (_, _, alone) = held_apart (size / 2 ^ shift) blocks_small r s n t m hs ht in
      elim alone [
        | inl same ↦ inl same
        | inr apart ↦ inr (rw (es, en, et, em) (scaled s n t m apart))
      ]

  -- In a segment of fewer than 2 ^ 64 bytes, the bytes of an allocation that is held lie in the
  -- segment, neither their offset nor their number overflows, and any other allocation that is held
  -- shares no byte with it.
  pub allocations_lem :
      (s n t m : ℕ)
      → 0 < holds s n held
      → 0 < holds t m held
      → (offset shift s ≡ s * 2 ^ shift)
        × (allocation_size shift n ≡ n * 2 ^ shift)
        × (offset shift s + allocation_size shift n ≤ size)
        × (((s ≡ t) × (n ≡ m))
            ⊎ AreApart
                (offset shift s)
                (allocation_size shift n)
                (offset shift t)
                (allocation_size shift m))
  allocations_lem s n t m hs ht =
      let (es, en, inside) = allocation_within s n hs in
      (es, en, inside, allocations_apart s n t m hs ht)

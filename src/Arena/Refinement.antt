-- ===== src/Arena/Refinement.antt =====
-- daemon/allocator.hpp: what the arena promises, on the extents that are held, and that it keeps
-- it.
use partake.Prelude.{
  ℕ, ◌+◌, ◌^◌, ◌≤◌, ◌<◌, ◌≡◌, refl, Bool, true, List, [], ◌∷◌, Option, some, none, arith, inl, inr,
}
use partake.Arena.{Arena, Chunk, allocate, block_count, deallocate}
use partake.Arena.Row.{IsRow, IsLinked}
use partake.Arena.Counts.{count_used, count_free}
use partake.Arena.Invariant.{AreApart}
use partake.Arena.Allocation.{block_count_pos, allocate-Allocated, allocate-eq-none}
use partake.Arena.Deallocation.{deallocate-Freed}
use partake.Arena.Lifetime.{
  Held, Reach, took, gave, holds, give, holds_pos, Reach-Agrees, held_apart,
}

-- A place for `n` blocks from `s` on, beside all that is held.
abbrev pub Fits : ℕ → Held → ℕ → ℕ → Type 0
Fits size held s n = (s + n ≤ size) × ((t m : ℕ) → 0 < holds t m held → AreApart s n t m)

-- The outcome of an allocation of `n` blocks: a place for them, or that there is none.
abbrev IsOutcome : ℕ → Held → ℕ → Option (ℕ × Arena) → Type 0
IsOutcome size held n none = (s : ℕ) → ¬ Fits size held s n
IsOutcome size held n (some (start, b)) = Fits size held start n × Reach size b ((start, n) ∷ held)

-- The specification of an arena where some extents are held.
pub record Refines (size : ℕ) (held : Held) (a : Arena) : Type 0 where
  pub allocates : (count : ℕ) → IsOutcome size held (block_count count) (allocate a count)
  frees :
      (start n : ℕ)
      → 0 < holds start n held
      → (b : Arena) × (deallocate a start ≡ some b) × Reach size b (give start n held)

-- Where no chunk in use is, there is one free chunk.
gap_row :
    (s n : ℕ) (b : Bool) (at e : ℕ) (cs : List Chunk)
    → 0 < n
    → s + n ≤ e
    → ((t m : ℕ) → 0 < count_used t m cs → 0 < m → AreApart s n t m)
    → ((t m : ℕ) → 0 < count_free t m cs → m < n)
    → IsRow b at e cs
    → at ≤ s
    → 0 < 0
gap_row s n b at e [] pos fits used free h le = absurd h
gap_row s n b at e (c ∷ []) pos fits used free h le = ground arith
gap_row s n b at e (c ∷ d ∷ cs) pos fits used free h le =
    let rest =
      gap_row s n c.in_use (at + c.cnt) e (d ∷ cs) pos fits (λ t m u. used t m (omega (arith, u)))
        (λ t m u. free t m (omega (arith, u))) in
    ground (arith, rest, h, used c.strt c.cnt, used d.strt d.cnt, free c.strt c.cnt)

no_gap :
    (s n e : ℕ) (cs : List Chunk)
    → 0 < n
    → s + n ≤ e
    → ((t m : ℕ) → 0 < count_used t m cs → 0 < m → AreApart s n t m)
    → ((t m : ℕ) → 0 < count_free t m cs → m < n)
    → IsLinked e cs
    → 0 < 0
no_gap s n e [] pos fits used free h = absurd h
no_gap s n e (l ∷ cs) pos fits used free h =
    gap_row s n true 0 e cs pos fits (λ t m u. used t m (omega (arith, u)))
      (λ t m u. free t m (omega (arith, u))) h.1 (omega arith)

module _ (size : ℕ) {a : Arena} {held : Held} (small : size < 2 ^ 64) (r : Reach size a held) where
  new_apart :
      (s n t m : ℕ) {b : Arena}
      → Reach size b ((s, n) ∷ held)
      → 0 < holds t m held
      → AreApart s n t m
  new_apart s n t m {b} after h =
      let here : 0 < holds s n ((s, n) ∷ held) = ground arith in
      let (inside, once, apart) = held_apart size small after s n t m here (omega (arith, h)) in
      elim apart [ inr k ↦ k | inl (e, f) ↦ absurd (ground (arith, once, h, e, f)) ]

  allocated_fits :
      (count start : ℕ) (b : Arena)
      → allocate a count ≡ some (start, b)
      → Fits size held start (block_count count) × Reach size b ((start, block_count count) ∷ held)
  allocated_fits count start b e =
      let after = took count start r e in
      let now = Reach-Agrees size small r in
      let step = allocate-Allocated a count start b now.valid e in
      (
        (
          omega (arith, step.inside, now.siz),
          λ t m h. new_apart start (block_count count) t m after h,
        ),
        after,
      )

  failed_full :
      (count : ℕ) → allocate a count ≡ none → (s : ℕ) → ¬ Fits size held s (block_count count)
  failed_full count e s (fits, apart) =
      let now = Reach-Agrees size small r in
      let n = block_count count in
      omega (
        arith,
        no_gap s n a.siz a.chunks (block_count_pos count) (omega (arith, fits, now.siz))
            (λ t m u p. apart t m (omega (arith, now.used t m p, u)))
            ((allocate-eq-none a count now.valid).0 e) now.valid.linked,
      )

  outcome :
      (count : ℕ) (o : Option (ℕ × Arena))
      → allocate a count ≡ o
      → IsOutcome size held (block_count count) o
  outcome count none e = failed_full count e
  outcome count (some (start, b)) e = allocated_fits count start b e

  freed_held :
      (start n : ℕ)
      → 0 < holds start n held
      → (b : Arena) × (deallocate a start ≡ some b) × Reach size b (give start n held)
  freed_held start n h =
      let now = Reach-Agrees size small r in
      let pos = holds_pos start n held (now.no_empty start) h in
      let (b, run, step) =
        deallocate-Freed a start n now.valid pos (omega (arith, now.used start n pos, h)) in
      (b, run, gave start n r h run)

-- After any allocations and their ends in an arena of fewer than 2 ^ 64 blocks, the arena does what
-- the specification says of the extents that are held: an allocation takes a place beside them all,
-- and fails only if there is none that is large enough; and what is held can be given back.
pub Reach-Refines :
    (size : ℕ) {a : Arena} {held : Held} → size < 2 ^ 64 → Reach size a held → Refines size held a
Reach-Refines size {a} small r = record {
  allocates = λ count. outcome size small r count (allocate a count) refl;
  frees = freed_held size small r;
}

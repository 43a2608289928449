-- ===== src/Arena/Counts.antt =====
-- How often a chunk stands in the adjacency list and on the free lists, and how each step of the
-- arena changes that. Whether two lists hold the same chunks is an equation between such counts.
use mathlib.Core.Bool.{false≢true}
use partake.Prelude.{
  ℕ, ◌+◌, ◌≤◌, ◌<◌, ◌≡◌, ◌≢◌, Bool, true, false, ◌&&◌, List, [], ◌∷◌, ◌++◌, Option, none, some,
  arith, ◌==◌, ltb, inl, inr, Bool-cases, hit,
}
use partake.Arena.{
  Chunk, free_chunk, carve, is_chunk, is_free, is_held, neighbours, relink, coalesced,
}
use partake.Arena.Row.{IsRow, back, chunk}

-- A chunk that an allocation holds.
abbrev is_used : ℕ → ℕ → Chunk → Bool
is_used start count c = c.in_use && is_chunk start count c

abbrev pub count_free : ℕ → ℕ → List Chunk → ℕ
count_free s n [] = 0
count_free s n (c ∷ cs) = hit (is_free s n c) + count_free s n cs

abbrev pub count_used : ℕ → ℕ → List Chunk → ℕ
count_used s n [] = 0
count_used s n (c ∷ cs) = hit (is_used s n c) + count_used s n cs

-- Where the chunk that is given back stands.
abbrev pub Located : ℕ → List Chunk → List Chunk → Chunk → Chunk → Chunk → Type 0
Located start before after p c q =
    (pre : List Chunk) × (rest : List Chunk) × (before ≡ pre ++ (p ∷ c ∷ q ∷ rest))
    × (after ≡ pre ++ back p c q rest)
    × (is_held start c ≡ true)

pub neighbours-Located :
    (start : ℕ) (prev : Chunk) (cs : List Chunk) (p c q : Chunk)
    → neighbours start prev cs ≡ some (p, c, q)
    → Located start (prev ∷ cs) (relink start prev cs) p c q
unfolding neighbours relink
neighbours-Located start prev [] p c q h = cc
neighbours-Located start prev (x ∷ []) p c q h = cc
neighbours-Located start prev (x ∷ y ∷ cs) p c q h = elim (Bool-cases (is_held start x)) [
  | inl found ↦
      let e : ◌≡◌ {A = Option (Chunk × Chunk × Chunk)} (some (prev, x, y)) (some (p, c, q)) =
        rw found at h in
      ([], cs, ground arith, ground arith, ground arith)
  | inr other ↦
      let (pre, rest, b, a, held) = neighbours-Located start x (y ∷ cs) p c q (rw other at h) in
      (prev ∷ pre, rest, ground arith, ground arith, held)
]

module _ (s n : ℕ) where
  pub count_free-carve :
      (start count excess : ℕ) (cs : List Chunk)
      → 0 < count_free start (count + excess) cs
      → count_free s n (carve start count excess cs) + hit (s == start && n == count + excess)
        ≡ count_free s n cs + hit (ltb 0 excess && is_chunk s n (free_chunk (start + count) excess))
  unfolding carve
  count_free-carve start count excess [] pos = absurd (omega arith)
  count_free-carve start count excess (c ∷ cs) pos =
      ground (arith, count_free-carve start count excess cs)

  pub count_used-carve :
      (start count excess : ℕ) (cs : List Chunk)
      → 0 < count_free start (count + excess) cs
      → count_used s n (carve start count excess cs)
        ≡ count_used s n cs + hit (s == start && n == count)
  unfolding carve
  count_used-carve start count excess [] pos = absurd (omega arith)
  count_used-carve start count excess (c ∷ cs) pos =
      ground (arith, count_used-carve start count excess cs)

  count_free-append :
      (xs ys : List Chunk) → count_free s n (xs ++ ys) ≡ count_free s n xs + count_free s n ys
  count_free-append [] ys = omega arith
  count_free-append (x ∷ xs) ys = omega (arith, count_free-append xs ys)

  count_used-append :
      (xs ys : List Chunk) → count_used s n (xs ++ ys) ≡ count_used s n xs + count_used s n ys
  count_used-append [] ys = omega arith
  count_used-append (x ∷ xs) ys = omega (arith, count_used-append xs ys)

  count_free-back :
      (pu cu qu : Bool) (ps pc cstart cc qs qc : ℕ) (cs : List Chunk)
      → cu ≡ true
      → count_free s n (back (chunk pu ps pc) (chunk cu cstart cc) (chunk qu qs qc) cs)
          + hit (is_free s n (chunk pu ps pc))
          + hit (is_free s n (chunk qu qs qc))
        ≡ count_free s n (chunk pu ps pc ∷ chunk cu cstart cc ∷ chunk qu qs qc ∷ cs)
          + hit (is_chunk s n (coalesced (chunk pu ps pc) (chunk cu cstart cc) (chunk qu qs qc)))
  count_free-back pu false qu ps pc cstart cc qs qc cs e = absurd (false≢true e)
  count_free-back true true true ps pc cstart cc qs qc cs e = omega arith
  count_free-back true true false ps pc cstart cc qs qc cs e = omega arith
  count_free-back false true true ps pc cstart cc qs qc cs e = omega arith
  count_free-back false true false ps pc cstart cc qs qc cs e = omega arith

  count_used-back :
      (pu cu qu : Bool) (ps pc cstart cc qs qc : ℕ) (cs : List Chunk)
      → cu ≡ true
      → count_used s n (back (chunk pu ps pc) (chunk cu cstart cc) (chunk qu qs qc) cs)
          + hit (is_used s n (chunk cu cstart cc))
        ≡ count_used s n (chunk pu ps pc ∷ chunk cu cstart cc ∷ chunk qu qs qc ∷ cs)
  count_used-back pu false qu ps pc cstart cc qs qc cs e = absurd (false≢true e)
  count_used-back true true true ps pc cstart cc qs qc cs e = omega arith
  count_used-back true true false ps pc cstart cc qs qc cs e = omega arith
  count_used-back false true true ps pc cstart cc qs qc cs e = omega arith
  count_used-back false true false ps pc cstart cc qs qc cs e = omega arith

  -- The coalesced chunk takes the place of the free neighbours.
  pub count_free-Located :
      (start : ℕ) (before after : List Chunk) (p c q : Chunk)
      → Located start before after p c q
      → count_free s n after + hit (is_free s n p) + hit (is_free s n q)
        ≡ count_free s n before + hit (is_chunk s n (coalesced p c q))
  count_free-Located start before after p c q (pre, rest, b, a, held) =
      rw (a, b, count_free-append pre (back p c q rest), count_free-append pre (p ∷ c ∷ q ∷ rest))
        (omega (
          arith,
          count_free-back p.in_use c.in_use q.in_use p.strt p.cnt c.strt c.cnt q.strt q.cnt rest
              (ground arith),
        ))

  -- Only the chunk that is given back leaves those in use.
  pub count_used-Located :
      (start : ℕ) (before after : List Chunk) (p c q : Chunk)
      → Located start before after p c q
      → count_used s n after + hit (is_used s n c) ≡ count_used s n before
  count_used-Located start before after p c q (pre, rest, b, a, held) =
      rw (a, b, count_used-append pre (back p c q rest), count_used-append pre (p ∷ c ∷ q ∷ rest))
        (omega (
          arith,
          count_used-back p.in_use c.in_use q.in_use p.strt p.cnt c.strt c.cnt q.strt q.cnt rest
              (ground arith),
        ))

  -- The free neighbours are two chunks of the list.
  pub count_free-neighbours :
      (start : ℕ) (before after : List Chunk) (p c q : Chunk)
      → Located start before after p c q
      → hit (is_free s n p) + hit (is_free s n q) ≤ count_free s n before
  count_free-neighbours start before after p c q (pre, rest, b, a, held) =
      rw (b, count_free-append pre (p ∷ c ∷ q ∷ rest)) (omega arith)

  pub count_free-coalesced :
      (start : ℕ) (before after : List Chunk) (p c q : Chunk)
      → Located start before after p c q
      → hit (is_chunk s n (coalesced p c q)) ≤ count_free s n after
  count_free-coalesced start before after p c q l = omega (
    arith,
    count_free-Located start before after p c q l,
    count_free-neighbours start before after p c q l,
  )

-- The chunk that is given back is in use.
pub Located-used :
    (start : ℕ) (before after : List Chunk) (p c q : Chunk)
    → Located start before after p c q
    → (c.strt ≡ start) × (0 < c.cnt) × (0 < count_used start c.cnt before)
Located-used start before after p c q (pre, rest, b, a, held) =
    rw (b, count_used-append start c.cnt pre (p ∷ c ∷ q ∷ rest)) (ground arith)

pub neighbours_exist :
    (start n : ℕ) (b : Bool) (at e : ℕ) (prev : Chunk) (cs : List Chunk)
    → IsRow b at e cs
    → 0 < n
    → 0 < count_used start n cs
    → neighbours start prev cs ≢ none
unfolding neighbours
neighbours_exist start n b at e prev [] h hn pos = absurd h
neighbours_exist start n b at e prev (c ∷ []) h hn pos = ground arith
neighbours_exist start n b at e prev (c ∷ d ∷ cs) h hn pos =
    ground (arith, neighbours_exist start n c.in_use (at + c.cnt) e c (d ∷ cs))

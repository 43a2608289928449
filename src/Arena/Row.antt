-- ===== src/Arena/Row.antt =====
-- The adjacency list as a row of chunks: each starts where the one before it ends, none is empty
-- but the sentinels, and no two free chunks are neighbours.
use native.Mathlib.Nat.{add-zero, add_assoc, add_comm}
use partake.Prelude.{
  ℕ, zero, suc, ◌+◌, ◌≤◌, ◌<◌, ◌≡◌, refl, Bool, true, false, ◌||◌, List, [], ◌∷◌, arith, ltb,
  if◌then◌else◌, ◌⊎◌, inl, inr, Bool-cases, lt→ltb,
}
use partake.Arena.{
  Chunk, sentinel, free_chunk, carve, is_free, is_held, relink, relink_all, coalesced,
}

-- The right sentinel, which ends the row.
abbrev IsEnd : ℕ → ℕ → Chunk → List Chunk → Type 0
IsEnd s e c cs = (cs ≡ []) × (c.cnt ≡ 0) × (c.in_use ≡ true) × (s ≡ e)

-- The chunks after one whose state is `before`, from `s` up to the right sentinel at `e`.
abbrev pub IsRow : Bool → ℕ → ℕ → List Chunk → Type 0
IsRow before s e [] = ⊥
IsRow before s e (c ∷ cs) =
    (c.strt ≡ s)
    × (IsEnd s e c cs
        ⊎ ((0 < c.cnt) × ((before || c.in_use) ≡ true) × IsRow c.in_use (s + c.cnt) e cs))

pub IsRow-le : (b : Bool) (s e : ℕ) (cs : List Chunk) → IsRow b s e cs → s ≤ e
IsRow-le b s e [] h = absurd h
IsRow-le b s e (c ∷ cs) (_, inl h) = omega arith
IsRow-le b s e (c ∷ cs) (_, inr h) = omega (arith, IsRow-le c.in_use (s + c.cnt) e cs h.2)

-- A row after a free chunk may also stand after one in use.
IsRow-weaken : (b : Bool) (s e : ℕ) (cs : List Chunk) → IsRow b s e cs → IsRow true s e cs
IsRow-weaken b s e [] h = h
IsRow-weaken b s e (c ∷ cs) (p, inl h) = (p, inl h)
IsRow-weaken b s e (c ∷ cs) (p, inr h) = (p, inr (h.0, refl, h.2))

IsRow-carved :
    (b : Bool) (s e count excess : ℕ) (cs : List Chunk)
    → 0 < count
    → IsRow false (s + (count + excess)) e cs
    → IsRow b s e (
        record { strt = s; cnt = count; in_use = true }
        ∷ (if ltb 0 excess then free_chunk (s + count) excess ∷ cs else cs))
IsRow-carved b s e count zero cs pos h =
    (refl, inr (pos, ground arith, IsRow-weaken false (s + count) e cs (rw (add-zero count) at h)))
IsRow-carved b s e count (suc n) cs pos h = (
  refl,
  inr (
    pos,
    ground arith,
    rw (lt→ltb 0 (suc n) (omega arith))
        (refl, inr (omega arith, refl, rw (add_assoc s count (suc n)) h)),
  ),
)

is_free_iff :
    (start count : ℕ) (c : Chunk) → is_free start count c ≡ true → c ≡ free_chunk start count
is_free_iff start count c h = ground arith

-- Marking a free chunk and splitting off its excess keeps the row.
IsRow-carve :
    (start count excess : ℕ) (b : Bool) (s e : ℕ) (cs : List Chunk)
    → 0 < count
    → IsRow b s e cs
    → IsRow b s e (carve start count excess cs)
unfolding carve
IsRow-carve start count excess b s e [] pos h = h
IsRow-carve start count excess b s e (c ∷ cs) pos h =
    elim (Bool-cases (is_free start (count + excess) c)) [
      | inr other ↦
          rw other (ground (arith, IsRow-carve start count excess c.in_use (s + c.cnt) e cs pos))
      | inl found ↦ elim h.1 [
        | inl end ↦ cc (is_free_iff start (count + excess) c found)
        | inr r ↦ rw found (
            ground
              (arith, is_free_iff start (count + excess) c, IsRow-carved b s e count excess cs pos))
      ]
    ]

-- A previous chunk and what follows it once the chunk `c` between it and `n` is given back.
abbrev pub back : Chunk → Chunk → Chunk → List Chunk → List Chunk
back p c n cs =
    let after = coalesced p c n ∷ (if n.in_use then n ∷ cs else cs) in
    if p.in_use then p ∷ after else after

abbrev pub chunk : Bool → ℕ → ℕ → Chunk
chunk b s n = record { strt = s; cnt = n; in_use = b }

-- It is a row again.
IsRow-back :
    (pu nu cu b : Bool) (s e ps pc cstart cc ns nc : ℕ) (cs : List Chunk)
    → IsRow b s e (chunk pu ps pc ∷ chunk cu cstart cc ∷ chunk nu ns nc ∷ cs)
    → IsRow b s e (back (chunk pu ps pc) (chunk cu cstart cc) (chunk nu ns nc) cs)
IsRow-back true true cu b s e ps pc cstart cc ns nc cs h = ground arith
IsRow-back true false cu b s e ps pc cstart cc ns nc cs h = ground (arith, add_assoc (s + pc) cc nc)
IsRow-back false true cu b s e ps pc cstart cc ns nc cs h =
    ground (arith, add_assoc s cc pc, add_assoc s pc cc, add_comm pc cc)
IsRow-back false false cu b s e ps pc cstart cc ns nc cs h =
    ground (arith, add_assoc s (cc + pc) nc, add_assoc s pc cc, add_comm pc cc, add_assoc s cc pc)

IsRow-relink :
    (start : ℕ) (b : Bool) (s e : ℕ) (p : Chunk) (cs : List Chunk)
    → IsRow b s e (p ∷ cs)
    → IsRow b s e (relink start p cs)
unfolding relink
IsRow-relink start b s e p [] h = h
IsRow-relink start b s e p (c ∷ []) h = h
IsRow-relink start b s e p (c ∷ n ∷ cs) h = elim (Bool-cases (is_held start c)) [
  | inl found ↦
      rw found
        (IsRow-back p.in_use n.in_use c.in_use b s e p.strt p.cnt c.strt c.cnt n.strt n.cnt cs h)
  | inr other ↦ rw other (ground (arith, IsRow-relink start p.in_use (s + p.cnt) e c (n ∷ cs)))
]

-- The whole adjacency list of an arena of `e` blocks.
abbrev pub IsLinked : ℕ → List Chunk → Type 0
IsLinked e [] = ⊥
IsLinked e (l ∷ row) = (l ≡ sentinel 0) × IsRow true 0 e row

IsLinked-first :
    (nu cu : Bool) (e cstart cc ns nc : ℕ) (cs : List Chunk)
    → IsRow true 0 e (chunk cu cstart cc ∷ chunk nu ns nc ∷ cs)
    → IsLinked e (back (sentinel 0) (chunk cu cstart cc) (chunk nu ns nc) cs)
IsLinked-first true cu e cstart cc ns nc cs h = ground arith
IsLinked-first false cu e cstart cc ns nc cs h = ground (arith, add_assoc 0 cc nc)

IsLinked-relink :
    (start e : ℕ) (cs : List Chunk) → IsRow true 0 e cs → IsLinked e (relink start (sentinel 0) cs)
unfolding relink
IsLinked-relink start e [] h = absurd h
IsLinked-relink start e (c ∷ []) h = (refl, h)
IsLinked-relink start e (c ∷ n ∷ cs) h = elim (Bool-cases (is_held start c)) [
  | inl found ↦ rw found (IsLinked-first n.in_use c.in_use e c.strt c.cnt n.strt n.cnt cs h)
  | inr other ↦ rw other (refl, IsRow-relink start true 0 e c (n ∷ cs) h)
]

-- Giving a chunk back keeps the adjacency list in order.
pub IsLinked-relink_all :
    (start e : ℕ) (cs : List Chunk) → IsLinked e cs → IsLinked e (relink_all start cs)
IsLinked-relink_all start e [] h = h
IsLinked-relink_all start e (c ∷ cs) h = rw (h.0) (IsLinked-relink start e cs h.1)

-- So does taking one.
pub IsLinked-carve :
    (start count excess e : ℕ) (cs : List Chunk)
    → 0 < count
    → IsLinked e cs
    → IsLinked e (carve start count excess cs)
unfolding carve
IsLinked-carve start count excess e [] pos h = h
IsLinked-carve start count excess e (l ∷ cs) pos h =
    rw h.0 (refl, IsRow-carve start count excess true 0 e cs pos h.1)

-- ===== src/Arena/Lifetime.antt =====
-- The arena from its constructor on, through any sequence of allocations and their ends.
use partake.Prelude.{
  ℕ, zero, suc, ◌+◌, ◌^◌, ◌≤◌, ◌<◌, ◌≡◌, refl, Bool, true, false, ◌&&◌, List, [], ◌∷◌, ◌++◌, some,
  arith, hit, ◌==◌, if◌then◌else◌, ◌⊎◌, inl, inr, ◌∙◌, sym, some_inj, length, replicate,
}
use partake.Arena.{
  Arena, Chunk, arena, sentinel, free_chunk, is_chunk, allocate, block_count, deallocate,
}
use partake.SizeClass.{free_list_index_for_size}
use partake.Arena.Row.{IsRow, IsLinked}
use partake.Arena.Counts.{count_used}
use partake.Arena.FreeLists.{nodes}
use partake.Arena.Invariant.{IsValid, used_apart, count_used-within, AreApart, used_once}
use partake.Arena.Allocation.{allocate-Allocated}
use partake.Arena.Deallocation.{deallocate-Freed}

nodes-one_list :
    (i k s n : ℕ) (c : Chunk)
    → nodes k s n (replicate i [] ++ (c ∷ []) ∷ []) ≡ hit (k == i && is_chunk s n c)
nodes-one_list zero zero s n c = ground arith
nodes-one_list zero (suc k) s n c = ground arith
nodes-one_list (suc i) zero s n c = ground arith
nodes-one_list (suc i) (suc k) s n c = ground (arith, nodes-one_list i k s n c)

length-one_list : (i : ℕ) (l : List Chunk) → length (replicate i [] ++ l ∷ []) ≡ i + 1
length-one_list zero l = omega arith
length-one_list (suc i) l = omega (arith, length-one_list i l)

-- The constructor builds a valid arena with nothing in use.
pub arena-IsValid :
    (size : ℕ)
    → size < 2 ^ 64
    → IsValid (arena size)
      × ((s n : ℕ) → 0 < n → count_used s n (arena size).chunks ≡ 0)
      × ((arena size).siz ≡ size)
unfolding arena
arena-IsValid zero small = (
  record {
    small = small;
    linked = (refl, (refl, inl (refl, refl, refl, refl)));
    lists = refl;
    listed = λ k s n. ground arith;
  },
  λ s n h. ground arith,
  refl,
)
arena-IsValid (suc m) small =
    let not_empty : (suc m == 0) ≡ false = ground arith in
    rw not_empty (
      record {
        small = small;
        linked = (
          refl,
          (refl, inr (omega arith, refl, (omega arith, inl (refl, refl, refl, omega arith)))),
        );
        lists =
            ground (
              arith,
              length-one_list (free_list_index_for_size (suc m)) (free_chunk 0 (suc m) ∷ []),
            );
        listed = λ k s n.
            ground (
              arith,
              nodes-one_list (free_list_index_for_size (suc m)) k s n (free_chunk 0 (suc m)),
            );
      },
      λ s n h. ground arith,
      refl,
    )

-- The allocations that are held, as (start, block count).
abbrev pub Held : Type 0
Held = List (ℕ × ℕ)

abbrev is_held_at : ℕ → ℕ → ℕ × ℕ → Bool
is_held_at s n (start, count) = start == s && count == n

-- How often an allocation is held.
abbrev pub holds : ℕ → ℕ → Held → ℕ
holds s n [] = 0
holds s n (h ∷ hs) = hit (is_held_at s n h) + holds s n hs

abbrev pub give : ℕ → ℕ → Held → Held
give s n [] = []
give s n (h ∷ hs) = if is_held_at s n h then hs else h ∷ give s n hs

-- The states of an arena of `size` blocks, with the allocations held there.
pub data Reach (size : ℕ) : Arena → Held → Type 0 where
  fresh : {a : Arena} → a ≡ arena size → Reach size a []
  took :
      {a b : Arena} {held : Held} (count start : ℕ)
      → Reach size a held
      → allocate a count ≡ some (start, b)
      → Reach size b ((start, block_count count) ∷ held)
  gave :
      {a b : Arena} {held : Held} (start count : ℕ)
      → Reach size a held
      → 0 < holds start count held
      → deallocate a start ≡ some b
      → Reach size b (give start count held)

pub holds-give :
    (s n start count : ℕ) (hs : Held)
    → 0 < holds start count hs
    → holds s n (give start count hs) + hit (s == start && n == count) ≡ holds s n hs
holds-give s n start count [] pos = absurd (omega arith)
holds-give s n start count (h ∷ hs) pos = ground (arith, holds-give s n start count hs)

-- The arena's chunks in use are the allocations held.
pub record Agrees (size : ℕ) (a : Arena) (held : Held) : Type 0 where
  pub valid : IsValid a
  pub siz : a.siz ≡ size
  pub used : (s n : ℕ) → 0 < n → count_used s n a.chunks ≡ holds s n held
  pub no_empty : (s : ℕ) → holds s 0 held ≡ 0

took-Agrees :
    (size count start : ℕ) (a b : Arena) (held : Held)
    → Agrees size a held
    → allocate a count ≡ some (start, b)
    → Agrees size b ((start, block_count count) ∷ held)
took-Agrees size count start a b held before e =
    let step = allocate-Allocated a count start b before.valid e in
    record {
      valid = step.after;
      siz = step.size ∙ before.siz;
      used = λ s n h. ground (arith, step.used s n, before.used s n h);
      no_empty = λ s. ground (arith, before.no_empty s);
    }

gave-Agrees :
    (size count start : ℕ) (a b : Arena) (held : Held)
    → Agrees size a held
    → 0 < count
    → 0 < holds start count held
    → deallocate a start ≡ some b
    → Agrees size b (give start count held)
gave-Agrees size count start a b held before some_block h e =
    let (c, run, step) =
      deallocate-Freed a start count before.valid some_block
        (omega (arith, before.used start count some_block)) in
    let same : b ≡ c = some_inj (sym e ∙ run) in
    rw same (record {
      valid = step.after;
      siz = step.size ∙ before.siz;
      used = λ s n p.
          omega (arith, step.used s n, before.used s n p, holds-give s n start count held h);
      no_empty = λ s. omega (arith, before.no_empty s, holds-give s 0 start count held h);
    })

-- After any sequence of allocations and their ends, in an arena of less than 2 ^ 64 blocks, the
-- arena is valid, and its chunks in use are exactly the allocations held.
pub Reach-Agrees :
    (size : ℕ) {a : Arena} {held : Held} → size < 2 ^ 64 → Reach size a held → Agrees size a held
Reach-Agrees size small (fresh e) =
    let (valid, unused, siz) = arena-IsValid size small in
    rw e (record { valid = valid; siz = siz; used = unused; no_empty = λ s. refl })
Reach-Agrees size small (took {a = a} {b = b} {held = held} count start r e) =
    took-Agrees size count start a b held (Reach-Agrees size small r) e
Reach-Agrees size small (gave {a = a} {b = b} {held = held} start count r h e) =
    let before = Reach-Agrees size small r in
    gave-Agrees size count start a b held before (positive count h (before.no_empty start)) h e
  where
    positive : (n : ℕ) → 0 < holds start n held → holds start 0 held ≡ 0 → 0 < n
    positive zero h e = omega arith
    positive (suc n) h e = omega arith

pub holds_pos : (s n : ℕ) (held : Held) → holds s 0 held ≡ 0 → 0 < holds s n held → 0 < n
holds_pos s zero held e h = omega arith
holds_pos s (suc n) held e h = omega arith

-- Through any allocations and their ends in an arena of fewer than 2 ^ 64 blocks, the blocks of an
-- allocation lie in the arena, and two that are held are one and the same or share no block; none
-- is held twice.
pub held_apart :
    (size : ℕ) {a : Arena} {held : Held}
    → size < 2 ^ 64
    → Reach size a held
    → (s n t m : ℕ) → 0 < holds s n held
    → 0 < holds t m held
    → (s + n ≤ size) × (holds s n held ≡ 1) × (((s ≡ t) × (n ≡ m)) ⊎ AreApart s n t m)
held_apart size {a} {held} small r s n t m hs ht =
    let now = Reach-Agrees size small r in
    let hn = holds_pos s n held (now.no_empty s) hs in
    let hm = holds_pos t m held (now.no_empty t) ht in
    let us : 0 < count_used s n a.chunks = omega (arith, now.used s n hn) in
    let ut : 0 < count_used t m a.chunks = omega (arith, now.used t m hm) in
    (
      omega (arith, count_used-within s n a.siz a.chunks now.valid.linked hn us, now.siz),
      omega (arith, used_once a.siz s n a.chunks now.valid.linked hn, now.used s n hn),
      used_apart a s n t m now.valid hn hm us ut,
    )

-- The chunks of an arena with nothing in use.
abbrev vacant : ℕ → List Chunk
vacant size =
    sentinel 0 ∷ (if size == 0 then sentinel size ∷ [] else free_chunk 0 size ∷ sentinel size ∷ [])

vacant_row :
    (e : ℕ) (cs : List Chunk)
    → IsRow true 0 e cs
    → ((s n : ℕ) → 0 < n → count_used s n cs ≡ 0)
    → sentinel 0 ∷ cs ≡ vacant e
vacant_row e [] h unused = absurd h
vacant_row e (c ∷ []) h unused = ground (arith, unused c.strt c.cnt)
vacant_row e (c ∷ d ∷ cs) h unused = ground (arith, unused c.strt c.cnt, unused d.strt d.cnt)

-- When, after any allocations and their ends, none is held any more, all blocks are one free chunk
-- again, as at the start.
pub held_none :
    (size : ℕ) {a : Arena} → size < 2 ^ 64 → Reach size a [] → a.chunks ≡ (arena size).chunks
unfolding arena
held_none size {a} small r =
    let now = Reach-Agrees size small r in
    whole a.chunks (rw now.siz at now.valid.linked) now.used ∙ ground arith
  where
    whole :
        (cs : List Chunk)
        → IsLinked size cs
        → ((s n : ℕ) → 0 < n → count_used s n cs ≡ 0)
        → cs ≡ vacant size
    whole [] h unused = absurd h
    whole (l ∷ cs) h unused = rw h.0 (vacant_row size cs h.1 (λ s n p. omega (arith, unused s n p)))

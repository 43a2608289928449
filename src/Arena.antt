-- ===== src/Arena.antt =====
-- daemon/allocator.hpp: `internal::arena`, the bookkeeping of chunks of blocks.
-- `chunks` holds the chunks in the order of the adjacency list, sentinels included. A chunk that
-- is on a free list is its node there: both lists show its fields. The code follows pointers to
-- chunks; a chunk that is not a sentinel is known by its start, which no other one shares.
pub mod Row
pub mod Counts
pub mod FreeLists
pub mod Invariant
pub mod Allocation
pub mod Deallocation
pub mod Lifetime
pub mod Refinement
use mathlib.Core.Option
use partake.Prelude.{
  ℕ, zero, suc, ◌+◌, ◌-◌, min, Bool, true, false, ◌&&◌, not, Option, none, some, List, [], ◌∷◌,
  ◌++◌, ltb, ◌==◌, if◌then◌else◌, length, get_or, set, replicate,
}
use partake.SizeClass.{free_list_index_for_size}

pub record Chunk : Type 0 where
  pub strt : ℕ
  pub cnt : ℕ
  pub in_use : Bool

pub record Arena : Type 0 where
  pub siz : ℕ
  pub chunks : List Chunk
  pub free_lists : List (List Chunk)

abbrev pub sentinel : ℕ → Chunk
sentinel start = record { strt = start; cnt = 0; in_use = true }

abbrev pub free_chunk : ℕ → ℕ → Chunk
free_chunk start count = record { strt = start; cnt = count; in_use = false }

-- The constructor.
unfoldable pub arena : ℕ → Arena
arena size =
    if size == 0
    then record { siz = 0; chunks = sentinel 0 ∷ sentinel 0 ∷ []; free_lists = [] }
    else record {
      siz = size;
      chunks = sentinel 0 ∷ free_chunk 0 size ∷ sentinel size ∷ [];
      free_lists = replicate (free_list_index_for_size size) [] ++ (free_chunk 0 size ∷ []) ∷ [];
    }

-- The two iterators point at the same chunk.
abbrev pub is_chunk : ℕ → ℕ → Chunk → Bool
is_chunk start count c = c.strt == start && c.cnt == count

-- The free chunk that a node of a free list is.
abbrev pub is_free : ℕ → ℕ → Chunk → Bool
is_free start count c = not c.in_use && is_chunk start count c

-- `flist.erase(flist.iterator_to(chk))`
unfoldable pub erase : ℕ → ℕ → List Chunk → List Chunk
erase start count [] = []
erase start count (c ∷ cs) = if is_chunk start count c then cs else c ∷ erase start count cs

-- The inner loop of `allocate`: the first chunk that is large enough, and the list without it,
-- the scanned chunks moved to the end.
unfoldable pub scan : ℕ → List Chunk → List Chunk → Option (Chunk × List Chunk)
scan count [] scanned = none
scan count (c ∷ cs) scanned =
    let rest = scan count cs (scanned ++ c ∷ []) in
    if ltb c.cnt count then rest else some (c, cs ++ scanned)

abbrev pub keep_list : List Chunk → Chunk × List (List Chunk) → Chunk × List (List Chunk)
keep_list l (c, ls) = (c, l ∷ ls)

-- The outer loop, over the free lists from `index` on.
unfoldable pub scan_lists : ℕ → ℕ → List (List Chunk) → Option (Chunk × List (List Chunk))
scan_lists index count [] = none
scan_lists (suc index) count (l ∷ ls) = Option.map (keep_list l) (scan_lists index count ls)
scan_lists zero count (l ∷ ls) = elim (scan count l []) [
  | some (c, l') ↦ some (c, l' ∷ ls)
  | none ↦ Option.map (keep_list l) (scan_lists zero count ls)
]

-- The free lists after `update` of the one that holds chunks of `count` blocks.
unfoldable pub at_list_for : ℕ → (List Chunk → List Chunk) → List (List Chunk) → List (List Chunk)
at_list_for count update lists =
    set lists (free_list_index_for_size count)
      (update (get_or lists (free_list_index_for_size count) []))

abbrev pub push_front : Chunk → List (List Chunk) → List (List Chunk)
push_front c = at_list_for c.cnt (λ l. c ∷ l)

abbrev pub unlist : Chunk → List (List Chunk) → List (List Chunk)
unlist c = at_list_for c.cnt (erase c.strt c.cnt)

-- The chosen chunk in the adjacency list: marked, and followed by its excess capacity, if any.
unfoldable pub carve : ℕ → ℕ → ℕ → List Chunk → List Chunk
carve start count excess [] = []
carve start count excess (c ∷ cs) =
    if is_free start (count + excess) c
    then record c { cnt = count; in_use = true }
      ∷ (if ltb 0 excess then free_chunk (start + count) excess ∷ cs else cs)
    else c ∷ carve start count excess cs

-- `allocate`: the start of the chunk that the allocation holds, or no allocation.
unfoldable pub allocate_count : Arena → ℕ → Option (ℕ × Arena)
allocate_count a count =
    elim (scan_lists (min (free_list_index_for_size count) (length a.free_lists)) count
      a.free_lists) [
        | none ↦ none
        | some (c, lists) ↦ some (
          c.strt,
          record a {
            chunks = carve c.strt count (c.cnt - count) a.chunks;
            free_lists =
                if ltb count c.cnt
                then push_front (free_chunk (c.strt + count) (c.cnt - count)) lists
                else lists;
          },
        )
      ]

abbrev pub block_count : ℕ → ℕ
block_count count = if count == 0 then 1 else count

unfoldable pub allocate : Arena → ℕ → Option (ℕ × Arena)
unfolding allocate_count
allocate a count = allocate_count a (block_count count)

-- The chunk in use that starts at `start`. A sentinel, which has no blocks, is none of these.
abbrev pub is_held : ℕ → Chunk → Bool
is_held start c = c.strt == start && (ltb 0 c.cnt && c.in_use)

-- `prev`, `chk` and `next`, for the chunk of an allocation. `none`: there is no such chunk.
unfoldable pub neighbours : ℕ → Chunk → List Chunk → Option (Chunk × Chunk × Chunk)
neighbours start prev [] = none
neighbours start prev (c ∷ []) = none
neighbours start prev (c ∷ n ∷ cs) =
    if is_held start c then some (prev, c, n) else neighbours start c (n ∷ cs)

-- `*chk` after both coalescences.
abbrev pub coalesced : Chunk → Chunk → Chunk → Chunk
coalesced prev c next =
    let left =
      if prev.in_use then free_chunk c.strt c.cnt else free_chunk prev.strt (c.cnt + prev.cnt) in
    if next.in_use then left else free_chunk left.strt (left.cnt + next.cnt)

-- The adjacency list after the same: `prev` and `next` are erased if they were free.
unfoldable pub relink : ℕ → Chunk → List Chunk → List Chunk
relink start prev [] = prev ∷ []
relink start prev (c ∷ []) = prev ∷ c ∷ []
relink start prev (c ∷ n ∷ cs) =
    if is_held start c
    then (let after = coalesced prev c n ∷ (if n.in_use then n ∷ cs else cs) in
        if prev.in_use then prev ∷ after else after)
    else prev ∷ relink start c (n ∷ cs)

abbrev pub relink_all : ℕ → List Chunk → List Chunk
relink_all start [] = []
relink_all start (c ∷ cs) = relink start c cs

abbrev pub neighbours_in : ℕ → List Chunk → Option (Chunk × Chunk × Chunk)
neighbours_in start [] = none
neighbours_in start (c ∷ cs) = neighbours start c cs

-- The free lists after both coalescences and the final `push_front`.
abbrev pub relist : Chunk → Chunk → Chunk → List (List Chunk) → List (List Chunk)
relist prev c next lists =
    let without_prev = if prev.in_use then lists else unlist prev lists in
    let without_next = if next.in_use then without_prev else unlist next without_prev in
    push_front (coalesced prev c next) without_next

-- `deallocate`, for an allocation that starts at `start`; `none`: an assertion fails.
unfoldable pub deallocate : Arena → ℕ → Option Arena
deallocate a start = elim (neighbours_in start a.chunks) [
  | none ↦ none
  | some (prev, c, next) ↦ some (record a {
    chunks = relink_all start a.chunks;
    free_lists = relist prev c next a.free_lists;
  })
]

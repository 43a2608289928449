-- ===== src/Arena/Allocation.antt =====
-- `allocate`: what it returns, what it changes, and when it fails.
use partake.Prelude.{
  ℕ, ◌+◌, ◌-◌, ◌≤◌, ◌<◌, min, ◌≡◌, refl, ◌&&◌, List, ◌∷◌, none, some, arith, hit, ◌==◌, ltb,
  if◌then◌else◌, ◌↔◌, inl, inr, Bool-cases, Option-cases, length,
}
use partake.Arena.{
  Arena, Chunk, free_chunk, is_chunk, scan_lists, push_front, allocate_count, allocate, block_count,
  carve,
}
use partake.SizeClass.{free_list_index_for_size, free_list_index_for_size_mono}
use partake.Arena.Row.{IsLinked-carve}
use partake.Arena.Counts.{count_free, count_used, count_free-carve, count_used-carve}
use partake.Arena.FreeLists.{
  nodes, nodes-push_front, length-at_list_for, scan_lists-Takes, scan_lists-none,
}
use partake.Arena.Invariant.{IsValid, IsListed, list_count, count_free-within, list-exists}

abbrev first_list : Arena → ℕ → ℕ
first_list a count = min (free_list_index_for_size count) (length a.free_lists)

-- What a successful `allocate` does: the arena after it is valid, the chunk of `count` blocks lies
-- inside and is now in use, and nothing else came into use or went out of it.
pub record Allocated (a : Arena) (count start : ℕ) (a' : Arena) : Type 0 where
  pub after : IsValid a'
  pub inside : start + count ≤ a.siz
  pub size : a'.siz ≡ a.siz
  pub used :
      (s n : ℕ)
      → count_used s n a'.chunks ≡ count_used s n a.chunks + hit (s == start && n == count)

module _ (a : Arena) (valid : IsValid a) (count : ℕ) (pos : 0 < count) where
  -- The node that the scan takes is a free chunk of the arena, on the list for its size.
  record Chosen (c : Chunk) (lists : List (List Chunk)) : Type 0 where
    fits : count ≤ c.cnt
    stands : 0 < count_free c.strt c.cnt a.chunks
    inside : c.strt + c.cnt ≤ a.siz
    long : length lists ≡ list_count a.siz
    same :
        (k s n : ℕ)
        → nodes k s n lists + hit (k == free_list_index_for_size n && is_chunk s n c)
          ≡ (if k == free_list_index_for_size n then count_free s n a.chunks else 0)

  scan_lists-Chosen :
      (c : Chunk) (lists : List (List Chunk))
      → scan_lists (first_list a count) count a.free_lists ≡ some (c, lists)
      → Chosen c lists
  scan_lists-Chosen c lists e =
      let (j, le, fits, len, same) =
        scan_lists-Takes (first_list a count) count a.free_lists c lists e in
      let stands : 0 < count_free c.strt c.cnt a.chunks =
        ground (arith, same j c.strt c.cnt, valid.listed j c.strt c.cnt) in
      let bin : j ≡ free_list_index_for_size c.cnt =
        ground (arith, same j c.strt c.cnt, valid.listed j c.strt c.cnt) in
      record {
        fits = fits;
        stands = stands;
        inside = (count_free-within c.strt c.cnt a.siz a.chunks valid.linked stands).1;
        long = omega (arith, valid.lists);
        same = λ k s n. ground (arith, same k s n, valid.listed k s n);
      }

  module _ (c : Chunk) (lists : List (List Chunk)) (chosen : Chosen c lists) where
    abbrev excess : ℕ
    excess = c.cnt - count

    abbrev rest : Chunk
    rest = free_chunk (c.strt + count) excess

    whole : count + excess ≡ c.cnt
    whole = omega (arith, chosen.fits)

    lists_after : List (List Chunk)
    lists_after = if ltb count c.cnt then push_front rest lists else lists

    nodes-lists_after :
        (k s n : ℕ)
        → nodes k s n lists_after
          ≡ nodes k s n lists
            + hit (ltb 0 excess && (k == free_list_index_for_size n && is_chunk s n rest))
    unfolding lists_after
    nodes-lists_after k s n = elim (Bool-cases (ltb count c.cnt)) [
      | inl more ↦ rw more (
          ground (
            arith,
            nodes-push_front s n k rest lists,
            list-exists excess a.siz,
            chosen.inside,
            chosen.long,
            valid.small,
          ))
      | inr exact ↦ rw exact (ground arith)
    ]

    length-lists_after : length lists_after ≡ list_count a.siz
    unfolding lists_after
    length-lists_after =
        ground (arith, length-at_list_for excess (λ l. rest ∷ l) lists, chosen.long)

    IsListed-after : IsListed (carve c.strt count excess a.chunks) lists_after
    IsListed-after k s n = ground (
      arith,
      nodes-lists_after k s n,
      chosen.same k s n,
      count_free-carve s n c.strt count excess a.chunks (rw whole chosen.stands),
      whole,
    )

    allocated : Arena
    unfolding lists_after
    allocated = record a { chunks = carve c.strt count excess a.chunks; free_lists = lists_after }

    allocated-IsValid : IsValid allocated
    unfolding allocated
    allocated-IsValid = record {
      small = valid.small;
      linked = IsLinked-carve c.strt count excess a.siz a.chunks pos valid.linked;
      lists = length-lists_after;
      listed = IsListed-after;
    }

  allocated-Allocated :
      (c : Chunk) (lists : List (List Chunk)) (chosen : Chosen c lists)
      → Allocated a count c.strt (allocated c lists chosen)
  unfolding allocated
  allocated-Allocated c lists chosen = record {
    after = allocated-IsValid c lists chosen;
    inside = omega (arith, chosen.inside, chosen.fits);
    size = refl;
    used = λ s n.
        count_used-carve s n c.strt count (c.cnt - count) a.chunks
          (rw (whole c lists chosen) chosen.stands);
  }

  allocate_count-Allocated :
      (start : ℕ) (a' : Arena)
      → allocate_count a count ≡ some (start, a')
      → Allocated a count start a'
  unfolding allocate_count allocated lists_after
  allocate_count-Allocated start a' h =
      elim (Option-cases (scan_lists (first_list a count) count a.free_lists)) [
        | inl e ↦ cc (rw (e, allocate_count) at h)
        | inr ((c, lists), e) ↦
            let chosen = scan_lists-Chosen c lists e in
            let here : start ≡ c.strt = ground arith in
            let after : a' ≡ allocated c lists chosen = ground arith in
            rw (here, after) (allocated-Allocated c lists chosen)
      ]

  allocate_count-none :
      allocate_count a count ≡ none → (s n : ℕ) → 0 < count_free s n a.chunks → n < count
  unfolding allocate_count
  allocate_count-none h s n held =
      let failed : scan_lists (first_list a count) count a.free_lists ≡ none = ground arith in
      let (some_block, within) = count_free-within s n a.siz a.chunks valid.linked held in
      let listed = valid.listed (free_list_index_for_size n) s n in
      elim (Bool-cases (ltb n count)) [
        | inl less ↦ ground arith
        | inr enough ↦
            scan_lists-none (first_list a count) count a.free_lists failed
              (free_list_index_for_size n) s n
              (ground (arith, free_list_index_for_size_mono count n pos, valid.small))
              (ground arith)
      ]

  allocate_count-some :
      (start : ℕ) (a' : Arena)
      → allocate_count a count ≡ some (start, a')
      → (s : ℕ) × (n : ℕ) × (0 < count_free s n a.chunks) × (count ≤ n)
  unfolding allocate_count
  allocate_count-some start a' h =
      elim (Option-cases (scan_lists (first_list a count) count a.free_lists)) [
        | inl e ↦ cc (rw (e, allocate_count) at h)
        | inr ((c, lists), e) ↦
            let chosen = scan_lists-Chosen c lists e in (c.strt, c.cnt, chosen.stands, chosen.fits)
      ]

pub block_count_pos : (count : ℕ) → 0 < block_count count
block_count_pos count = ground arith

-- In a valid arena an allocation that succeeds gets a chunk of the blocks asked for (one, if none
-- are) inside the arena. That chunk comes into use, no other chunk enters or leaves use, and the
-- arena stays valid and of its size.
pub allocate-Allocated :
    (a : Arena) (count start : ℕ) (a' : Arena)
    → IsValid a
    → allocate a count ≡ some (start, a')
    → Allocated a (block_count count) start a'
unfolding allocate
allocate-Allocated a count start a' valid h =
    allocate_count-Allocated a valid (block_count count) (block_count_pos count) start a' h

-- In a valid arena an allocation fails exactly when no free chunk has the blocks asked for.
pub allocate-eq-none :
    (a : Arena) (count : ℕ)
    → IsValid a
    → (allocate a count ≡ none) ↔ ((s n : ℕ) → 0 < count_free s n a.chunks → n < block_count count)
unfolding allocate
allocate-eq-none a count valid = (
  allocate_count-none a valid (block_count count) (block_count_pos count),
  λ small. elim (Option-cases (allocate_count a (block_count count))) [
    | inl failed ↦ failed
    | inr ((start, a'), e) ↦
        let (s, n, stands, fits) =
          allocate_count-some a valid (block_count count) (block_count_pos count) start a' e in
        absurd (omega (arith, small s n stands))
  ],
)

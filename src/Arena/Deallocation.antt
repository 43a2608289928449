-- ===== src/Arena/Deallocation.antt =====
-- `deallocate`: an allocation that is given back leaves use, and the arena stays valid.
use partake.Prelude.{
  ℕ, ◌+◌, ◌-◌, ◌≤◌, ◌<◌, ◌≡◌, ◌≢◌, refl, Bool, true, false, ◌&&◌, List, [], ◌∷◌, none, some, arith,
  hit, ◌==◌, if◌then◌else◌, inl, inr, ◌∙◌, Bool-cases, Option-cases, length,
}
use partake.Arena.{
  Arena, Chunk, erase, is_chunk, is_free, push_front, unlist, coalesced, deallocate, neighbours_in,
  relist, relink_all,
}
use partake.SizeClass.{free_list_index_for_size}
use partake.Arena.Row.{IsLinked, IsLinked-relink_all}
use partake.Arena.Counts.{
  count_free, count_used, count_free-Located, count_used-Located, Located, neighbours-Located,
  count_free-neighbours, count_free-coalesced, Located-used, neighbours_exist,
}
use partake.Arena.FreeLists.{nodes, nodes-push_front, nodes-unlist, length-at_list_for}
use partake.Arena.Invariant.{
  IsValid, IsListed, list_count, count_free-within, list-exists, used_apart,
}

pub record Freed (a : Arena) (start count : ℕ) (a' : Arena) : Type 0 where
  pub after : IsValid a'
  pub size : a'.siz ≡ a.siz
  pub used :
      (s n : ℕ)
      → count_used s n a'.chunks + hit (s == start && n == count) ≡ count_used s n a.chunks

neighbours_in-Located :
    (start : ℕ) (cs : List Chunk) (p c q : Chunk)
    → neighbours_in start cs ≡ some (p, c, q)
    → Located start cs (relink_all start cs) p c q
neighbours_in-Located start [] p c q h = cc
neighbours_in-Located start (l ∷ cs) p c q h = neighbours-Located start l cs p c q h

neighbours_in_exist :
    (e start n : ℕ) (cs : List Chunk)
    → IsLinked e cs
    → 0 < n
    → 0 < count_used start n cs
    → neighbours_in start cs ≢ none
neighbours_in_exist e start n [] h hn pos = absurd h
neighbours_in_exist e start n (l ∷ cs) h hn pos =
    neighbours_exist start n true 0 e l cs h.1 hn (ground arith)

-- The list for a chunk's size is the list for the size of any chunk like it.
same_list :
    (k s n : ℕ) (x : Chunk)
    → hit (k == free_list_index_for_size x.cnt && is_chunk s n x)
      ≡ hit (k == free_list_index_for_size n && is_chunk s n x)
same_list k s n x = ground arith

-- One list: its nodes follow the free chunks, whether or not it is the list for them.
relisted :
    (b hp hq hc : Bool) (before right pushed counted counted' : ℕ)
    → before ≡ (if b then counted else 0)
    → right ≡ before - hit (b && hp) - hit (b && hq)
    → pushed ≡ right + hit (b && hc)
    → counted' + hit hp + hit hq ≡ counted + hit hc
    → hit hp + hit hq ≤ counted
    → pushed ≡ (if b then counted' else 0)
relisted true hp hq hc before right pushed counted counted' e r u t l = omega arith
relisted false hp hq hc before right pushed counted counted' e r u t l = omega arith

module _ (a : Arena) (valid : IsValid a) (start : ℕ) (p c q : Chunk)
    (found : Located start a.chunks (relink_all start a.chunks) p c q) where
  free_list-exists :
      (s n : ℕ) → 0 < count_free s n a.chunks → free_list_index_for_size n < list_count a.siz
  free_list-exists s n pos =
      let (some_block, inside) = count_free-within s n a.siz a.chunks valid.linked pos in
      list-exists n a.siz some_block (omega arith) valid.small

  -- Taking a neighbour off its list, if it is free.
  abbrev unlisted : Chunk → List (List Chunk) → List (List Chunk)
  unlisted x ls = if x.in_use then ls else unlist x ls

  nodes-unlisted :
      (x : Chunk) (ls : List (List Chunk)) (k s n : ℕ)
      → length ls ≡ list_count a.siz
      → (x.in_use ≡ false → 0 < count_free x.strt x.cnt a.chunks)
      → (length (unlisted x ls) ≡ list_count a.siz)
        × (nodes k s n (unlisted x ls)
            ≡ nodes k s n ls - hit (k == free_list_index_for_size n && is_free s n x))
  nodes-unlisted x ls k s n len stands = elim (Bool-cases x.in_use) [
    | inl used ↦ rw used (len, ground arith)
    | inr free ↦ rw free (
      ground (arith, length-at_list_for x.cnt (erase x.strt x.cnt) ls, len),
      ground (arith, nodes-unlist s n k x ls, free_list-exists x.strt x.cnt (stands free), len),
    )
  ]

  -- A free neighbour is one of the arena's free chunks.
  stands-left : p.in_use ≡ false → 0 < count_free p.strt p.cnt a.chunks
  stands-left free = ground (
    arith,
    count_free-neighbours p.strt p.cnt start a.chunks (relink_all start a.chunks) p c q found,
  )

  stands-right : q.in_use ≡ false → 0 < count_free q.strt q.cnt a.chunks
  stands-right free = ground (
    arith,
    count_free-neighbours q.strt q.cnt start a.chunks (relink_all start a.chunks) p c q found,
  )

  IsLinked-after : IsLinked a.siz (relink_all start a.chunks)
  IsLinked-after = IsLinked-relink_all start a.siz a.chunks valid.linked

  abbrev whole : Chunk
  whole = coalesced p c q

  whole-exists : free_list_index_for_size whole.cnt < list_count a.siz
  whole-exists =
      let counted =
        count_free-coalesced whole.strt whole.cnt start a.chunks (relink_all start a.chunks) p c q
          found in
      let (some_block, inside) =
        count_free-within whole.strt whole.cnt a.siz (relink_all start a.chunks) IsLinked-after
          (ground (arith, counted)) in
      list-exists whole.cnt a.siz some_block (omega arith) valid.small

  abbrev lists_left : List (List Chunk)
  lists_left = unlisted p a.free_lists

  abbrev lists_right : List (List Chunk)
  lists_right = unlisted q lists_left

  lists_after :
      (k s n : ℕ)
      → (length lists_right ≡ list_count a.siz)
        × (nodes k s n lists_right
            ≡ nodes k s n a.free_lists
              - hit (k == free_list_index_for_size n && is_free s n p)
              - hit (k == free_list_index_for_size n && is_free s n q))
  lists_after k s n =
      let left = nodes-unlisted p a.free_lists k s n valid.lists stands-left in
      let right = nodes-unlisted q lists_left k s n left.0 stands-right in
      (right.0, omega (arith, left.1, right.1))

  IsListed-after : IsListed (relink_all start a.chunks) (relist p c q a.free_lists)
  IsListed-after k s n =
      let (len, right) = lists_after k s n in
      relisted (k == free_list_index_for_size n) (is_free s n p) (is_free s n q)
        (is_chunk s n whole) (nodes k s n a.free_lists) (nodes k s n lists_right)
        (nodes k s n (push_front whole lists_right)) (count_free s n a.chunks)
        (count_free s n (relink_all start a.chunks)) (valid.listed k s n) right
        (omega (
          arith,
          nodes-push_front s n k whole lists_right (rw len whole-exists),
          same_list k s n whole,
        ))
        (count_free-Located s n start a.chunks (relink_all start a.chunks) p c q found)
        (count_free-neighbours s n start a.chunks (relink_all start a.chunks) p c q found)

  freed : Arena
  freed = record a { chunks = relink_all start a.chunks; free_lists = relist p c q a.free_lists }

  freed-Freed : (n : ℕ) → 0 < n → 0 < count_used start n a.chunks → Freed a start n freed
  unfolding freed
  freed-Freed n hn held =
      let (here, some_block, stands) =
        Located-used start a.chunks (relink_all start a.chunks) p c q found in
      let same : c.cnt ≡ n =
        ground (arith, used_apart a start c.cnt start n valid some_block hn stands held) in
      record {
        after = record {
          small = valid.small;
          linked = IsLinked-after;
          lists = length-at_list_for whole.cnt (λ l. whole ∷ l) lists_right ∙ (lists_after 0 0 0).0;
          listed = IsListed-after;
        };
        size = refl;
        used = λ s m. ground (
          arith,
          count_used-Located s m start a.chunks (relink_all start a.chunks) p c q found,
          (Located-used start a.chunks (relink_all start a.chunks) p c q found).0,
          same,
        );
      }

-- In a valid arena a chunk that an allocation holds can be given back: no assertion fails, the
-- chunk leaves use, no other chunk enters or leaves use, and the arena stays valid and of its size.
pub deallocate-Freed :
    (a : Arena) (start count : ℕ)
    → IsValid a
    → 0 < count
    → 0 < count_used start count a.chunks
    → (a' : Arena) × (deallocate a start ≡ some a') × Freed a start count a'
unfolding deallocate freed
deallocate-Freed a start count valid some_block held =
    elim (Option-cases (neighbours_in start a.chunks)) [
      | inl e ↦
          absurd (neighbours_in_exist a.siz start count a.chunks valid.linked some_block held e)
      | inr ((p, c, q), e) ↦
          let found = neighbours_in-Located start a.chunks p c q e in
          (
            freed a valid start p c q found,
            rw (e, deallocate),
            freed-Freed a valid start p c q found count some_block held,
          )
    ]

-- ===== src/Arena/FreeLists.antt =====
-- The free lists: the scan of `allocate`, and the lists' contents after each step, as counts.
use mathlib.Core.Option
use partake.Prelude.{
  ℕ, zero, suc, ◌+◌, ◌-◌, ◌≤◌, ◌<◌, ◌≡◌, refl, ◌&&◌, List, [], ◌∷◌, ◌++◌, Option, none, some, arith,
  hit, ◌==◌, inl, inr, Option-cases, get_or, get_or-set, length, length-set,
}
use partake.Arena.{
  Chunk, keep_list, is_chunk, erase, scan, scan_lists, at_list_for, push_front, unlist,
}
use partake.SizeClass.{free_list_index_for_size}

abbrev count_nodes : ℕ → ℕ → List Chunk → ℕ
count_nodes s n [] = 0
count_nodes s n (c ∷ cs) = hit (is_chunk s n c) + count_nodes s n cs

-- The nodes on free list `k`.
abbrev pub nodes : ℕ → ℕ → ℕ → List (List Chunk) → ℕ
nodes k s n ls = count_nodes s n (get_or ls k [])

pub length-at_list_for :
    (count : ℕ) (update : List Chunk → List Chunk) (ls : List (List Chunk))
    → length (at_list_for count update ls) ≡ length ls
unfolding at_list_for
length-at_list_for count update ls = length-set ls _ _

module _ (s n : ℕ) where
  count_nodes-append :
      (xs ys : List Chunk) → count_nodes s n (xs ++ ys) ≡ count_nodes s n xs + count_nodes s n ys
  count_nodes-append [] ys = omega arith
  count_nodes-append (x ∷ xs) ys = omega (arith, count_nodes-append xs ys)

  count_nodes-erase :
      (a b : ℕ) (xs : List Chunk)
      → count_nodes s n (erase a b xs) ≡ count_nodes s n xs - hit (s == a && n == b)
  unfolding erase
  count_nodes-erase a b [] = omega arith
  count_nodes-erase a b (x ∷ xs) = ground (arith, count_nodes-erase a b xs)

  -- Pushing a chunk and taking one off touch the list for its size alone.
  pub nodes-push_front :
      (k : ℕ) (c : Chunk) (ls : List (List Chunk))
      → free_list_index_for_size c.cnt < length ls
      → nodes k s n (push_front c ls)
        ≡ nodes k s n ls + hit (k == free_list_index_for_size c.cnt && is_chunk s n c)
  unfolding at_list_for
  nodes-push_front k c ls h =
      let i = free_list_index_for_size c.cnt in
      ground (arith, get_or-set ls i k (c ∷ get_or ls i []) [] h)

  pub nodes-unlist :
      (k : ℕ) (c : Chunk) (ls : List (List Chunk))
      → free_list_index_for_size c.cnt < length ls
      → nodes k s n (unlist c ls)
        ≡ nodes k s n ls - hit (k == free_list_index_for_size c.cnt && is_chunk s n c)
  unfolding at_list_for
  nodes-unlist k c ls h =
      let i = free_list_index_for_size c.cnt in
      ground (
        arith,
        get_or-set ls i k (erase c.strt c.cnt (get_or ls i [])) [] h,
        count_nodes-erase c.strt c.cnt (get_or ls i []),
      )

  -- The scan of one list takes a node that is large enough, and keeps all others.
  scan-nodes :
      (count : ℕ) (xs acc : List Chunk) (c : Chunk) (l : List Chunk)
      → scan count xs acc ≡ some (c, l)
      → count_nodes s n l + hit (is_chunk s n c) ≡ count_nodes s n xs + count_nodes s n acc
  unfolding scan
  scan-nodes count [] acc c l h = cc
  scan-nodes count (x ∷ xs) acc c l h = ground (
    arith,
    scan-nodes count xs (acc ++ x ∷ []) c l,
    count_nodes-append acc (x ∷ []),
    count_nodes-append xs acc,
  )

  -- If it takes none, all are too small.
  scan-none :
      (count : ℕ) (xs acc : List Chunk)
      → scan count xs acc ≡ none
      → 0 < count_nodes s n xs
      → n < count
  unfolding scan
  scan-none count [] acc h pos = absurd (omega arith)
  scan-none count (x ∷ xs) acc h pos = ground (arith, scan-none count xs (acc ++ x ∷ []))

scan-fits :
    (count : ℕ) (xs acc : List Chunk) (c : Chunk) (l : List Chunk)
    → scan count xs acc ≡ some (c, l)
    → count ≤ c.cnt
unfolding scan
scan-fits count [] acc c l h = cc
scan-fits count (x ∷ xs) acc c l h = ground (arith, scan-fits count xs (acc ++ x ∷ []) c l)

-- What the scan of all lists from `index` on takes: one node `c`, large enough, off one list `j`.
abbrev Takes : ℕ → ℕ → List (List Chunk) → Chunk → List (List Chunk) → Type 0
Takes index count ls c ls' =
    (j : ℕ) × (index ≤ j)
    × (count ≤ c.cnt)
    × (length ls' ≡ length ls)
    × ((k s n : ℕ) → nodes k s n ls' + hit (k == j && is_chunk s n c) ≡ nodes k s n ls)

Takes-cons :
    (index count : ℕ) (l : List Chunk) (ls : List (List Chunk)) (c : Chunk)
    (ls' : List (List Chunk))
    → Takes index count ls c ls'
    → Takes (suc index) count (l ∷ ls) c (l ∷ ls')
Takes-cons index count l ls c ls' (j, le, fits, len, same) =
    (suc j, omega arith, fits, omega arith, at)
  where
    at :
        (k s n : ℕ)
        → nodes k s n (l ∷ ls') + hit (k == suc j && is_chunk s n c) ≡ nodes k s n (l ∷ ls)
    at zero s n = ground arith
    at (suc k) s n = ground (arith, same k s n)

Takes-here :
    (count : ℕ) (l l' : List Chunk) (ls : List (List Chunk)) (c : Chunk)
    → scan count l [] ≡ some (c, l')
    → Takes 0 count (l ∷ ls) c (l' ∷ ls)
Takes-here count l l' ls c e = (0, omega arith, scan-fits count l [] c l' e, refl, at)
  where
    at : (k s n : ℕ) → nodes k s n (l' ∷ ls) + hit (k == 0 && is_chunk s n c) ≡ nodes k s n (l ∷ ls)
    at zero s n = ground (arith, scan-nodes s n count l [] c l' e)
    at (suc k) s n = ground arith

-- The two results of a scan that goes on behind the list `l`.
behind :
    (o : Option (Chunk × List (List Chunk))) (l : List Chunk) (c : Chunk) (ls' : List (List Chunk))
    → Option.map (keep_list l) o ≡ some (c, ls')
    → (rest : List (List Chunk)) × (o ≡ some (c, rest)) × (ls' ≡ l ∷ rest)
behind none l c ls' h = cc
behind (some (d, rest)) l c ls' h = (rest, ground arith, ground arith)

pub scan_lists-Takes :
    (index count : ℕ) (ls : List (List Chunk)) (c : Chunk) (ls' : List (List Chunk))
    → scan_lists index count ls ≡ some (c, ls')
    → Takes index count ls c ls'
unfolding scan_lists
scan_lists-Takes zero count [] c ls' h = cc
scan_lists-Takes (suc index) count [] c ls' h = cc
scan_lists-Takes (suc index) count (l ∷ ls) c ls' h =
    let (rest, e, e') = behind (scan_lists index count ls) l c ls' h in
    rw e' (Takes-cons index count l ls c rest (scan_lists-Takes index count ls c rest e))
scan_lists-Takes zero count (l ∷ ls) c ls' h = elim (Option-cases (scan count l [])) [
  | inl e ↦
      let (rest, e', e'') = behind (scan_lists zero count ls) l c ls' (ground arith) in
      let (j, le, fits, len, same) =
        Takes-cons zero count l ls c rest (scan_lists-Takes zero count ls c rest e') in
      rw e'' (j, omega arith, fits, len, same)
  | inr ((d, l'), e) ↦
      let same : c ≡ d = ground arith in
      let lists : ls' ≡ l' ∷ ls = ground arith in rw (same, lists) (Takes-here count l l' ls d e)
]

-- If the scan takes no node, each node on the lists that it went through is too small.
pub scan_lists-none :
    (index count : ℕ) (ls : List (List Chunk))
    → scan_lists index count ls ≡ none
    → (k s n : ℕ) → index ≤ k
    → 0 < nodes k s n ls
    → n < count
unfolding scan_lists
scan_lists-none zero count [] h k s n le pos = absurd (omega arith)
scan_lists-none (suc index) count [] h k s n le pos = absurd (omega arith)
scan_lists-none (suc index) count (l ∷ ls) h zero s n le pos = absurd (omega arith)
scan_lists-none (suc index) count (l ∷ ls) h (suc k) s n le pos =
    scan_lists-none index count ls (ground arith) k s n (omega arith) pos
scan_lists-none zero count (l ∷ ls) h zero s n le pos = scan-none s n count l [] (ground arith) pos
scan_lists-none zero count (l ∷ ls) h (suc k) s n le pos =
    scan_lists-none zero count ls (ground arith) k s n (omega arith) pos

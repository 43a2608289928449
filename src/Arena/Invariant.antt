-- ===== src/Arena/Invariant.antt =====
-- The arena's well-formedness, which every operation keeps.
use partake.Prelude.{
  ℕ, ◌+◌, ◌^◌, ◌≤◌, ◌<◌, ◌≡◌, Bool, true, List, [], ◌∷◌, arith, ◌==◌, if◌then◌else◌, ◌⊎◌, length,
}
use partake.Arena.{Arena, Chunk}
use partake.SizeClass.{free_list_index_for_size, free_list_index_for_size_mono}
use partake.Arena.Row.{IsRow, IsLinked, IsRow-le}
use partake.Arena.Counts.{count_free, count_used}
use partake.Arena.FreeLists.{nodes}

-- How many free lists an arena has.
abbrev pub list_count : ℕ → ℕ
list_count size = if size == 0 then 0 else free_list_index_for_size size + 1

-- Free list `k` holds the free chunks of its sizes, each once, and nothing else.
abbrev pub IsListed : List Chunk → List (List Chunk) → Type 0
IsListed chunks lists =
    (k s n : ℕ)
    → nodes k s n lists ≡ (if k == free_list_index_for_size n then count_free s n chunks else 0)

pub record IsValid (a : Arena) : Type 0 where
  pub small : a.siz < 2 ^ 64
  pub linked : IsLinked a.siz a.chunks
  pub lists : length a.free_lists ≡ list_count a.siz
  pub listed : IsListed a.chunks a.free_lists

-- A free chunk is not empty, and lies in the arena.
count_free-within_row :
    (s n : ℕ) (b : Bool) (at e : ℕ) (cs : List Chunk)
    → IsRow b at e cs
    → 0 < count_free s n cs
    → (0 < n) × (at ≤ s) × (s + n ≤ e)
count_free-within_row s n b at e [] h pos = absurd h
count_free-within_row s n b at e (c ∷ cs) h pos = ground (
  arith,
  count_free-within_row s n c.in_use (at + c.cnt) e cs,
  IsRow-le c.in_use (at + c.cnt) e cs,
)

pub count_free-within :
    (s n e : ℕ) (cs : List Chunk) → IsLinked e cs → 0 < count_free s n cs → (0 < n) × (s + n ≤ e)
count_free-within s n e [] h pos = absurd h
count_free-within s n e (l ∷ cs) h pos = ground (arith, count_free-within_row s n true 0 e cs)

-- So its list exists.
pub list-exists : (n e : ℕ) → 0 < n → n ≤ e → e < 2 ^ 64 → free_list_index_for_size n < list_count e
list-exists n e pos le small = ground (arith, free_list_index_for_size_mono n e pos le small)

-- A chunk in use that is not empty lies in the arena too.
count_used-within_row :
    (s n : ℕ) (b : Bool) (at e : ℕ) (cs : List Chunk)
    → IsRow b at e cs
    → 0 < n
    → 0 < count_used s n cs
    → (at ≤ s) × (s + n ≤ e)
count_used-within_row s n b at e [] h some_block pos = absurd h
count_used-within_row s n b at e (c ∷ cs) h some_block pos = ground (
  arith,
  count_used-within_row s n c.in_use (at + c.cnt) e cs,
  IsRow-le c.in_use (at + c.cnt) e cs,
)

abbrev pub AreApart : ℕ → ℕ → ℕ → ℕ → Type 0
AreApart s n t m = (s + n ≤ t) ⊎ (t + m ≤ s)

used_apart_row :
    (s n t m : ℕ) (b : Bool) (at e : ℕ) (cs : List Chunk)
    → IsRow b at e cs
    → 0 < n
    → 0 < m
    → 0 < count_used s n cs
    → 0 < count_used t m cs
    → ((s ≡ t) × (n ≡ m)) ⊎ AreApart s n t m
used_apart_row s n t m b at e [] h hn hm hs ht = absurd h
used_apart_row s n t m b at e (c ∷ cs) h hn hm hs ht = ground (
  arith,
  used_apart_row s n t m c.in_use (at + c.cnt) e cs,
  count_used-within_row s n c.in_use (at + c.cnt) e cs,
  count_used-within_row t m c.in_use (at + c.cnt) e cs,
)

used_once_row :
    (s n : ℕ) (b : Bool) (at e : ℕ) (cs : List Chunk)
    → IsRow b at e cs
    → 0 < n
    → count_used s n cs ≤ 1
used_once_row s n b at e [] h hn = absurd h
used_once_row s n b at e (c ∷ cs) h hn = ground (
  arith,
  used_once_row s n c.in_use (at + c.cnt) e cs,
  count_used-within_row s n c.in_use (at + c.cnt) e cs,
)

-- In a valid arena two chunks in use, neither of them empty, are the same or do not overlap.
pub used_apart :
    (a : Arena) (s n t m : ℕ)
    → IsValid a
    → 0 < n
    → 0 < m
    → 0 < count_used s n a.chunks
    → 0 < count_used t m a.chunks
    → ((s ≡ t) × (n ≡ m)) ⊎ AreApart s n t m
used_apart a s n t m valid hn hm hs ht = split a.siz a.chunks valid.linked hs ht
  where
    split :
        (e : ℕ) (cs : List Chunk)
        → IsLinked e cs
        → 0 < count_used s n cs
        → 0 < count_used t m cs
        → ((s ≡ t) × (n ≡ m)) ⊎ AreApart s n t m
    split e [] h hs ht = absurd h
    split e (l ∷ cs) h hs ht = ground (arith, used_apart_row s n t m true 0 e cs)

-- And each is held once.
pub used_once : (e s n : ℕ) (cs : List Chunk) → IsLinked e cs → 0 < n → count_used s n cs ≤ 1
used_once e s n [] h hn = absurd h
used_once e s n (l ∷ cs) h hn = ground (arith, used_once_row s n true 0 e cs)

pub count_used-within :
    (s n e : ℕ) (cs : List Chunk) → IsLinked e cs → 0 < n → 0 < count_used s n cs → s + n ≤ e
count_used-within s n e [] h hn pos = absurd h
count_used-within s n e (l ∷ cs) h hn pos = ground (arith, count_used-within_row s n true 0 e cs)

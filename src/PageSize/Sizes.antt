-- ===== src/PageSize/Sizes.antt =====
-- The list of huge page sizes: sorted, and made of the default and the sizes in the directory.
use partake.Prelude.{
  ℕ, ◌+◌, ◌≡◌, ◌≤◌, ◌==◌, refl, ◌&&◌, not, Option, none, some, List, [], ◌∷◌, ltb, leb,
  if◌then◌else◌, arith, hit, Bool-cases, inl, inr, ◌∙◌,
}
use partake.System.{Text, Host}
use partake.PageSize.{
  parse_huge_page_filename, default_huge_page_size, insert, sort, other_sizes, all_sizes,
  huge_page_sizes,
}

abbrev pub count : ℕ → List ℕ → ℕ
count n [] = 0
count n (m ∷ ms) = hit (m == n) + count n ms

abbrev AtLeast : ℕ → List ℕ → Type 0
AtLeast n [] = Unit {0}
AtLeast n (m ∷ ms) = n ≤ m

abbrev pub IsSorted : List ℕ → Type 0
IsSorted [] = Unit {0}
IsSorted (n ∷ ns) = AtLeast n ns × IsSorted ns

insert-AtLeast : (b n : ℕ) (ms : List ℕ) → b ≤ n → AtLeast b ms → AtLeast b (insert n ms)
unfolding insert
insert-AtLeast b n [] le h = le
insert-AtLeast b n (m ∷ ms) le h = ground arith

insert-IsSorted : (n : ℕ) (ms : List ℕ) → IsSorted ms → IsSorted (insert n ms)
unfolding insert
insert-IsSorted n [] h = (tt, tt)
insert-IsSorted n (m ∷ ms) (h, s) = elim (Bool-cases (leb n m)) [
  | inl e ↦ rw e (ground arith, (h, s))
  | inr e ↦ rw e (insert-AtLeast m n ms (ground arith) h, insert-IsSorted n ms s)
]

sort-IsSorted : (ns : List ℕ) → IsSorted (sort ns)
unfolding sort
sort-IsSorted [] = tt
sort-IsSorted (n ∷ ns) = insert-IsSorted n (sort ns) (sort-IsSorted ns)

count-insert : (k n : ℕ) (ms : List ℕ) → count k (insert n ms) ≡ hit (n == k) + count k ms
unfolding insert
count-insert k n [] = refl
count-insert k n (m ∷ ms) = ground (arith, count-insert k n ms)

count-sort : (k : ℕ) (ns : List ℕ) → count k (sort ns) ≡ count k ns
unfolding sort
count-sort k [] = refl
count-sort k (n ∷ ns) = omega (arith, count-insert k n (sort ns), count-sort k ns)

-- How many names say a size.
abbrev pub names_of : ℕ → List Text → ℕ
names_of k [] = 0
names_of k (name ∷ names) = hit (parse_huge_page_filename name == k) + names_of k names

count-other_sizes :
    (k dflt : ℕ) (names : List Text)
    → count k (other_sizes dflt names)
      ≡ (if ltb 0 k && not (k == dflt) then names_of k names else 0)
unfolding other_sizes
count-other_sizes k dflt [] = ground arith
count-other_sizes k dflt (name ∷ names) = ground (arith, count-other_sizes k dflt names)

abbrev all_names : Option (List Text) → List Text
all_names none = []
all_names (some names) = names

count-all_sizes :
    (k dflt : ℕ) (names : Option (List Text))
    → count k (all_sizes dflt names)
      ≡ (if k == 0 then 0 else if k == dflt then 1 else names_of k (all_names names))
count-all_sizes k dflt none = ground arith
count-all_sizes k dflt (some names) = ground (arith, count-other_sizes k dflt names)

-- The sizes are sorted. The default is among them once, if it is not 0; any other size is there as
-- often as names in the directory say it, and 0 never is.
pub huge_page_sizes_lem :
    (h : Host) (k : ℕ)
    → IsSorted (huge_page_sizes h)
      × (count k (huge_page_sizes h) ≡ (
          if k == 0
          then 0
          else if k == default_huge_page_size h
          then 1
          else names_of k (all_names h.huge_page_names)))
unfolding huge_page_sizes
huge_page_sizes_lem h k = (
  sort-IsSorted (all_sizes (default_huge_page_size h) h.huge_page_names),
  count-sort k (all_sizes (default_huge_page_size h) h.huge_page_names)
      ∙ count-all_sizes k (default_huge_page_size h) h.huge_page_names,
)

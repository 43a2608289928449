-- ===== src/PageSize.antt =====
-- daemon/page_size.cpp: the sizes of huge pages, from what the kernel says, and the page size of a
-- file.
pub mod Sizes
use partake.Prelude.{
  ℕ, ◌+◌, ◌*◌, ◌^◌, ◌%◌, ◌≡◌, refl, Bool, true, false, ◌&&◌, ◌||◌, not, Option, none, some, List,
  [], ◌∷◌, ltb, leb, ◌==◌, if◌then◌else◌, arith,
}
use partake.Text.{stoul, same_text, after_prefix, lines, words}
use partake.System.{Text, Host}

-- "Hugepagesize:", "kB" and "hugepages-"
abbrev key_text : Text
key_text = 72 ∷ 117 ∷ 103 ∷ 101 ∷ 112 ∷ 97 ∷ 103 ∷ 101 ∷ 115 ∷ 105 ∷ 122 ∷ 101 ∷ 58 ∷ []

abbrev kilobytes : Text
kilobytes = 107 ∷ 66 ∷ []

abbrev huge_pages_prefix : Text
huge_pages_prefix = 104 ∷ 117 ∷ 103 ∷ 101 ∷ 112 ∷ 97 ∷ 103 ∷ 101 ∷ 115 ∷ 45 ∷ []

abbrev in_kilobytes : ℕ → ℕ
in_kilobytes s = s * 1024 % 2 ^ 64

abbrev whole_number : Option (ℕ × Text) → ℕ
whole_number none = 0
whole_number (some (s, [])) = in_kilobytes s
whole_number (some (s, c ∷ rest)) = 0

-- The words of a line after the key: the size, the unit and no more.
abbrev size_in_line : List Text → ℕ
size_in_line [] = 0
size_in_line (siz ∷ []) = 0
size_in_line (siz ∷ unit ∷ []) = if same_text unit kilobytes then whole_number (stoul siz) else 0
size_in_line (siz ∷ unit ∷ word ∷ more) = 0

abbrev for_line : List Text → ℕ → ℕ
for_line [] rest = rest
for_line (key ∷ more) rest = if same_text key key_text then size_in_line more else rest

abbrev for_lines : List Text → ℕ
for_lines [] = 0
for_lines (line ∷ more) = for_line (words line) (for_lines more)

unfoldable read_default_huge_page_size : Option Text → ℕ
unfolding stoul same_text lines words
read_default_huge_page_size none = 0
read_default_huge_page_size (some meminfo) = for_lines (lines meminfo)

abbrev with_unit : Option (ℕ × Text) → ℕ
with_unit none = 0
with_unit (some (s, rest)) = if same_text rest kilobytes then in_kilobytes s else 0

unfoldable pub parse_huge_page_filename : Text → ℕ
unfolding stoul same_text after_prefix
parse_huge_page_filename name = elim (after_prefix huge_pages_prefix name) [
  | none ↦ 0
  | some size_kb ↦ with_unit (stoul size_kb)
]

unfoldable pub default_huge_page_size : Host → ℕ
unfolding read_default_huge_page_size
default_huge_page_size h = read_default_huge_page_size h.meminfo

unfoldable pub insert : ℕ → List ℕ → List ℕ
insert n [] = n ∷ []
insert n (m ∷ ms) = if leb n m then n ∷ m ∷ ms else m ∷ insert n ms

-- `std::sort`
unfoldable pub sort : List ℕ → List ℕ
unfolding insert
sort [] = []
sort (n ∷ ns) = insert n (sort ns)

-- The sizes in the directory that are not the default.
unfoldable pub other_sizes : ℕ → List Text → List ℕ
unfolding parse_huge_page_filename
other_sizes dflt [] = []
other_sizes dflt (name ∷ names) =
    if ltb 0 (parse_huge_page_filename name) && not (parse_huge_page_filename name == dflt)
    then parse_huge_page_filename name ∷ other_sizes dflt names
    else other_sizes dflt names

abbrev pub all_sizes : ℕ → Option (List Text) → List ℕ
all_sizes dflt none = if ltb 0 dflt then dflt ∷ [] else []
all_sizes dflt (some names) =
    if ltb 0 dflt then dflt ∷ other_sizes dflt names else other_sizes dflt names

unfoldable pub huge_page_sizes : Host → List ℕ
unfolding default_huge_page_size other_sizes sort
huge_page_sizes h = sort (all_sizes (default_huge_page_size h) h.huge_page_names)

abbrev hugetlbfs_magic : ℕ
hugetlbfs_magic = 0x958458f6

-- `none` is a descriptor of -1, at which `fstatfs` fails.
unfoldable pub file_page_size : Host → Option ℕ → ℕ
file_page_size h none = 0
file_page_size h (some fd) = elim (h.file_system fd) [
  | none ↦ 0
  | some (f_type, f_bsize) ↦ if f_type == hugetlbfs_magic then f_bsize else h.page_size
]

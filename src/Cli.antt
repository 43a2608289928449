-- ===== src/Cli.antt =====
-- daemon/cli.cpp: sizes with suffixes. Characters are
-- their codes. `std::stoll` is modelled as far as it is used: blanks, a sign and decimal digits.
pub mod Names
pub mod Config
use partake.Prelude.{
  ℕ, ◌+◌, ◌-◌, ◌*◌, ◌/◌, ◌%◌, ◌^◌, ◌<◌, ◌≡◌, Bool, true, false, ◌&&◌, ◌||◌, not, Option, none, some,
  List, [], ◌∷◌, ltb, leb, ◌==◌, if◌then◌else◌, arith, hit, inl, inr, ◌⊎◌,
}
use partake.Text.{skip_blanks, digits}

pub data Number : Type 0 where
  invalid_argument out_of_range : Number
  negative : Number
  number : ℕ → List ℕ → Number

abbrev checked : Bool → Option ℕ × List ℕ → Number
checked minus (none, rest) = invalid_argument
checked minus (some n, rest) =
    if minus
    then (if ltb (2 ^ 63) n then out_of_range else if n == 0 then number 0 rest else negative)
    else if leb (2 ^ 63) n
    then out_of_range
    else number n rest

abbrev signed : List ℕ → Number
signed [] = invalid_argument
signed (c ∷ s) =
    if c == 45
    then checked true (digits none s)
    else if c == 43
    then checked false (digits none s)
    else checked false (digits none (c ∷ s))

unfoldable pub stoll : List ℕ → Number
unfolding skip_blanks digits
stoll s = signed (skip_blanks s)

pub data SizeError : Type 0 where
  empty_size invalid_size size_too_large negative_size invalid_suffix : SizeError

pub data SizeResult : Type 0 where
  size_error : SizeError → SizeResult
  size_value : ℕ → SizeResult

-- The multiplier of a suffix.
unfoldable pub multiplier : List ℕ → Option ℕ
multiplier [] = some 1
multiplier (c ∷ d ∷ s) = none
multiplier (c ∷ []) =
    if c == 66 || c == 98
    then some 1
    else if c == 75 || c == 107
    then some (2 ^ 10)
    else if c == 77 || c == 109
    then some (2 ^ 20)
    else if c == 71 || c == 103
    then some (2 ^ 30)
    else none

-- The product on 64 bits, and the test for overflow. A size has as many bits.
unfoldable pub scaled : ℕ → ℕ → SizeResult
scaled n factor =
    let value = n * factor % 2 ^ 64 in
    if not (value / factor == n) then size_error size_too_large else size_value value

abbrev with_suffix : ℕ → Option ℕ → SizeResult
with_suffix n none = size_error invalid_suffix
with_suffix n (some factor) = scaled n factor

abbrev size_of_number : Number → SizeResult
size_of_number invalid_argument = size_error invalid_size
size_of_number out_of_range = size_error size_too_large
size_of_number negative = size_error negative_size
size_of_number (number n suffix) = with_suffix n (multiplier suffix)

abbrev is_empty_text : List ℕ → Bool
is_empty_text [] = true
is_empty_text (c ∷ s) = false

unfoldable pub parse_size_suffix : List ℕ → SizeResult
unfolding stoll multiplier scaled
parse_size_suffix s = if is_empty_text s then size_error empty_size else size_of_number (stoll s)

multiplier-cases :
    (suffix : List ℕ) (factor : ℕ)
    → multiplier suffix ≡ some factor
    → (factor ≡ 1) ⊎ (factor ≡ 2 ^ 10) ⊎ (factor ≡ 2 ^ 20) ⊎ (factor ≡ 2 ^ 30)
unfolding multiplier
multiplier-cases [] factor e = ground (arith, e)
multiplier-cases (c ∷ []) factor e = ground (arith, e)
multiplier-cases (c ∷ d ∷ s) factor e = absurd (ground (arith, e))

abbrev exact : ℕ → SizeResult
exact value = if ltb value (2 ^ 64) then size_value value else size_error size_too_large

-- The test for overflow finds it.
scaled-exact :
    (n factor : ℕ)
    → n < 2 ^ 63
    → (factor ≡ 1) ⊎ (factor ≡ 2 ^ 10) ⊎ (factor ≡ 2 ^ 20) ⊎ (factor ≡ 2 ^ 30)
    → scaled n factor ≡ exact (n * factor)
unfolding scaled
scaled-exact n factor h (inl e) = rw e (ground arith)
scaled-exact n factor h (inr (inl e)) = rw e (ground arith)
scaled-exact n factor h (inr (inr (inl e))) = rw e (ground arith)
scaled-exact n factor h (inr (inr (inr e))) = rw e (ground arith)

checked-number :
    (minus : Bool) (r : Option ℕ × List ℕ) (n : ℕ) (suffix : List ℕ)
    → checked minus r ≡ number n suffix
    → n < 2 ^ 63
checked-number true (none, rest) n suffix e = absurd (ground (arith, e))
checked-number true (some m, rest) n suffix e = ground (arith, e)
checked-number false (none, rest) n suffix e = absurd (ground (arith, e))
checked-number false (some m, rest) n suffix e = ground (arith, e)

signed-number : (s : List ℕ) (n : ℕ) (suffix : List ℕ) → signed s ≡ number n suffix → n < 2 ^ 63
signed-number [] n suffix e = absurd (ground (arith, e))
signed-number (c ∷ s) n suffix e = ground (
  arith,
  e,
  checked-number true (digits none s) n suffix,
  checked-number false (digits none s) n suffix,
  checked-number false (digits none (c ∷ s)) n suffix,
)

-- A number with a suffix is read as their exact product if that has at most 64 bits, else it is an
-- error: no size wraps around.
pub parse_size_suffix-exact :
    (s suffix : List ℕ) (n factor : ℕ)
    → stoll s ≡ number n suffix
    → multiplier suffix ≡ some factor
    → parse_size_suffix s
      ≡ (if ltb (n * factor) (2 ^ 64) then size_value (n * factor) else size_error size_too_large)
unfolding parse_size_suffix stoll skip_blanks
parse_size_suffix-exact [] suffix n factor e k = absurd (ground (arith, e))
parse_size_suffix-exact (c ∷ s) suffix n factor e k =
    rw (e, k)
      (scaled-exact n factor (signed-number (skip_blanks (c ∷ s)) n suffix e)
        (multiplier-cases suffix factor k))

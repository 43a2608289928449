-- ===== src/Cli/Names.antt =====
-- daemon/cli.cpp: the names of shared memory.
pub mod Generated
use partake.Prelude.{
  ℕ, ◌+◌, ◌-◌, ◌^◌, ◌≡◌, refl, ◌==◌, Bool, true, false, ◌&&◌, ◌||◌, not, Option, none, some, List,
  [], ◌∷◌, ltb, leb, if◌then◌else◌,
}
use partake.Text.{read_number, after_prefix}
use partake.System.{Text, ℤ, pos, negsuc}
use partake.Shmem.Win32.{local_prefix}

-- The messages, by what they say.
pub data CliError : Type 0 where
  several_types : CliError
  huge_pages_without_systemv large_pages_without_windows : CliError
  posix_without_slash posix_too_short posix_slash : CliError
  key_not_integer key_out_of_range : CliError
  windows_without_prefix windows_too_short windows_backslash : CliError
  no_memory no_socket granularity_not_power granularity_too_small ttl_not_positive : CliError

-- `tl::expected` of a value or a message.
pub data Expected {ℓ} (A : Type ℓ) : Type ℓ where
  unexpected : CliError → Expected A
  expected : A → Expected A

infixl 5 ◌>>=◌
abbrev pub ◌>>=◌ {ℓ κ} : {A : Type ℓ} {B : Type κ} → Expected A → (A → Expected B) → Expected B
unexpected e >>= f = unexpected e
expected a >>= f = f a

abbrev pub contains : Text → ℕ → Bool
contains [] c = false
contains (d ∷ s) c = d == c || contains s c

abbrev is_empty : Text → Bool
is_empty [] = true
is_empty (c ∷ s) = false

-- 47 is the slash.
unfoldable pub validate_posix_shmem_name : Text → Expected Text
validate_posix_shmem_name [] = expected []
validate_posix_shmem_name (c ∷ name) =
    if not (c == 47)
    then unexpected posix_without_slash
    else if is_empty name
    then unexpected posix_too_short
    else if contains name 47
    then unexpected posix_slash
    else expected (c ∷ name)

-- The range of an `int` of 32 bits.
abbrev in_int : Bool → ℕ → Expected ℤ
in_int true n =
    if ltb (2 ^ 31) n
    then unexpected key_out_of_range
    else if n == 0
    then expected (pos 0)
    else expected (negsuc (n - 1))
in_int false n = if leb (2 ^ 31) n then unexpected key_out_of_range else expected (pos n)

-- `std::stoi` leaves what follows the number.
unfoldable pub validate_sysv_shmem_name : Text → Expected ℤ
unfolding read_number
validate_sysv_shmem_name [] = expected (pos 0)
validate_sysv_shmem_name (c ∷ name) = elim (read_number (c ∷ name)) [
  | none ↦ unexpected key_not_integer
  | some (minus, n, rest) ↦ in_int minus n
]

-- What follows the prefix. 92 is the backslash.
abbrev pub after_local : Text → Option Text → Expected Text
after_local name none = unexpected windows_without_prefix
after_local name (some []) = unexpected windows_too_short
after_local name (some (c ∷ rest)) =
    if contains (c ∷ rest) 92 then unexpected windows_backslash else expected name

unfoldable pub validate_win32_shmem_name : Text → Expected Text
unfolding after_prefix
validate_win32_shmem_name [] = expected []
validate_win32_shmem_name (c ∷ name) = after_local (c ∷ name) (after_prefix local_prefix (c ∷ name))

-- Both steps of a bind that succeeds succeed.
pub >>=-eq-expected {ℓ κ} :
    {A : Type ℓ} {B : Type κ} (m : Expected A) (f : A → Expected B) {b : B}
    → (m >>= f) ≡ expected b
    → (a : A) × (m ≡ expected a) × (f a ≡ expected b)
>>=-eq-expected (unexpected e) f h = cc
>>=-eq-expected (expected a) f h = (a, refl, h)

pub expected_inj {ℓ} : {A : Type ℓ} {a b : A} → expected a ≡ expected b → a ≡ b
expected_inj h = cc

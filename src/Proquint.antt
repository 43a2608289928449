-- ===== src/Proquint.antt =====
-- common/proquint.hpp and common/proquint.cpp: a key as a string of four five-letter words. A
-- character is its code, an unsigned 8-bit number.
pub mod RoundTrip
use partake.Prelude.{
  ℕ, ◌+◌, ◌-◌, ◌*◌, ◌/◌, ◌%◌, ◌^◌, Bool, true, false, ◌&&◌, Option, none, some, List, [], ◌∷◌, ◌++◌,
  bit_or, ◌==◌, if◌then◌else◌, length, get_or,
}

-- "bdfghjklmnprstvz" and "aiou"
abbrev pub consonants : List ℕ
consonants =
    98 ∷ 100 ∷ 102 ∷ 103 ∷ 104 ∷ 106 ∷ 107 ∷ 108 ∷ 109 ∷ 110 ∷ 112 ∷ 114 ∷ 115 ∷ 116 ∷ 118 ∷ 122
    ∷ []

abbrev pub vowels : List ℕ
vowels = 97 ∷ 105 ∷ 111 ∷ 117 ∷ []

abbrev pub hyphen : ℕ
hyphen = 45

abbrev pub u16 : ℕ
u16 = 2 ^ 16

-- The letter for the high bits of a 16-bit number.
unfoldable pub hi4bits_to_consonant : ℕ → ℕ
hi4bits_to_consonant pi = get_or consonants (pi / 2 ^ 12) 0

unfoldable pub hi2bits_to_vowel : ℕ → ℕ
hi2bits_to_vowel pi = get_or vowels (pi / 2 ^ 14) 0

-- The number with its high bits shifted out.
unfoldable pub shift_out : ℕ → ℕ → ℕ
shift_out pi k = pi * 2 ^ k % u16

unfoldable pub uint16_to_proquint : ℕ → List ℕ
unfolding hi4bits_to_consonant hi2bits_to_vowel shift_out
uint16_to_proquint i0 =
    let i1 = shift_out i0 4 in
    let i2 = shift_out i1 2 in
    let i3 = shift_out i2 4 in
    let i4 = shift_out i3 2 in
    hi4bits_to_consonant i0
    ∷ hi2bits_to_vowel i1
    ∷ hi4bits_to_consonant i2
    ∷ hi2bits_to_vowel i3
    ∷ hi4bits_to_consonant i4
    ∷ []

unfoldable pub proquint_from_u64 : ℕ → List ℕ
unfolding uint16_to_proquint
proquint_from_u64 i =
    uint16_to_proquint (i / 2 ^ 48 % u16)
    ++ hyphen ∷ uint16_to_proquint (i / 2 ^ 32 % u16)
    ++ hyphen ∷ uint16_to_proquint (i / 2 ^ 16 % u16)
    ++ hyphen ∷ uint16_to_proquint (i % u16)

abbrev pub no_letter : ℕ
no_letter = 255

-- The tables, from 'a' on.
abbrev pub consonant_table : List ℕ
consonant_table =
    255 ∷ 0 ∷ 255 ∷ 1 ∷ 255 ∷ 2 ∷ 3 ∷ 4 ∷ 255 ∷ 5 ∷ 6 ∷ 7 ∷ 8 ∷ 9 ∷ 255 ∷ 10 ∷ 255 ∷ 11 ∷ 12 ∷ 13
    ∷ 255 ∷ 14 ∷ 255 ∷ 255 ∷ 255 ∷ 15 ∷ []

abbrev pub vowel_table : List ℕ
vowel_table =
    0 ∷ 255 ∷ 255 ∷ 255 ∷ 255 ∷ 255 ∷ 255 ∷ 255 ∷ 1 ∷ 255 ∷ 255 ∷ 255 ∷ 255 ∷ 255 ∷ 2 ∷ 255 ∷ 255
    ∷ 255 ∷ 255 ∷ 255 ∷ 3 ∷ 255 ∷ 255 ∷ 255 ∷ 255 ∷ 255 ∷ []

-- `u8(ch) - u8('a')`, and the table's entry; an index past its end fails, as an entry 0xff does.
unfoldable pub entry : List ℕ → ℕ → ℕ
entry table ch = get_or table ((ch + 2 ^ 8 - 97) % 2 ^ 8) no_letter

-- The number that is read, and whether all letters were right so far.
abbrev pub append_bits : ℕ → ℕ → ℕ × Bool → ℕ × Bool
append_bits k value (dest, ok) =
    let shifted = dest * 2 ^ k % u16 in
    if value == no_letter then (shifted, false) else (bit_or shifted value, ok)

unfoldable pub consonant_to_4bits : ℕ → ℕ × Bool → ℕ × Bool
unfolding entry
consonant_to_4bits ch = append_bits 4 (entry consonant_table ch)

unfoldable pub vowel_to_2bits : ℕ → ℕ × Bool → ℕ × Bool
unfolding entry
vowel_to_2bits ch = append_bits 2 (entry vowel_table ch)

unfoldable pub proquint_to_u16 : ℕ → ℕ → ℕ → ℕ → ℕ → ℕ × Bool
unfolding consonant_to_4bits vowel_to_2bits
proquint_to_u16 c0 c1 c2 c3 c4 = consonant_to_4bits c4 (
    vowel_to_2bits c3 (consonant_to_4bits c2 (vowel_to_2bits c1 (consonant_to_4bits c0 (0, true)))))

-- The word that starts at a position.
abbrev pub word_at : List ℕ → ℕ → ℕ × Bool
word_at s n =
    proquint_to_u16 (get_or s n 0) (get_or s (n + 1) 0) (get_or s (n + 2) 0) (get_or s (n + 3) 0)
      (get_or s (n + 4) 0)

-- `result <<= 16` and `result |= wk`
abbrev pub append_word : ℕ → ℕ → ℕ
append_word result wk = bit_or (result * 2 ^ 16 % 2 ^ 64) wk

unfoldable pub proquint_to_u64 : List ℕ → ℕ × Bool
unfolding proquint_to_u16
proquint_to_u64 s =
    let (wk0, ok0) = word_at s 0 in
    let (wk1, ok1) = word_at s 6 in
    let (wk2, ok2) = word_at s 12 in
    let (wk3, ok3) = word_at s 18 in
    (
      append_word (append_word (append_word wk0 wk1) wk2) wk3,
      ok0
          && (get_or s 5 0 == hyphen
              && (ok1 && (get_or s 11 0 == hyphen && (ok2 && (get_or s 17 0 == hyphen && ok3))))),
    )

unfoldable pub validate : List ℕ → Option ℕ
unfolding proquint_to_u64
validate s =
    if length s == 23
    then (let (v, ok) = proquint_to_u64 s in if ok then some v else none)
    else none

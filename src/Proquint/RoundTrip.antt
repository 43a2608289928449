-- ===== src/Proquint/RoundTrip.antt =====
-- common/proquint.cpp: what is written is read back.
use partake.Prelude.{
  ℕ, zero, suc, ◌+◌, ◌-◌, ◌*◌, ◌/◌, ◌%◌, ◌^◌, ◌<◌, ◌≡◌, refl, Bool, true, false, ◌&&◌, some, List,
  ◌==◌, length, get_or, arith, ◌∙◌, ap,
}
use partake.Prelude.Bits.{bit_or_disjoint}
use partake.Proquint.{
  consonants, vowels, hyphen, u16, hi4bits_to_consonant, hi2bits_to_vowel, shift_out,
  uint16_to_proquint, proquint_from_u64, no_letter, consonant_table, vowel_table, entry,
  append_bits, consonant_to_4bits, vowel_to_2bits, proquint_to_u16, word_at, append_word,
  proquint_to_u64, validate,
}

abbrev all_below : (ℕ → Bool) → ℕ → Bool
all_below p zero = true
all_below p (suc n) = p n && all_below p n

all_below-lt : (p : ℕ → Bool) (n k : ℕ) → all_below p n ≡ true → k < n → p k ≡ true
all_below-lt p zero k h lt = absurd (omega arith)
all_below-lt p (suc n) k h lt = ground (arith, all_below-lt p n k, same)
  where
    same : k ≡ n → p k ≡ p n
    same e = ap p e

abbrev reads_back : List ℕ → List ℕ → ℕ → Bool
reads_back letters table j = get_or table ((get_or letters j 0 + 2 ^ 8 - 97) % 2 ^ 8) no_letter == j

read_consonant : (j : ℕ) → j < 16 → entry consonant_table (get_or consonants j 0) ≡ j
unfolding entry
read_consonant j h =
    ground (arith, all_below-lt (reads_back consonants consonant_table) 16 j refl h)

read_vowel : (j : ℕ) → j < 4 → entry vowel_table (get_or vowels j 0) ≡ j
unfolding entry
read_vowel j h = ground (arith, all_below-lt (reads_back vowels vowel_table) 4 j refl h)

append_4 :
    (d j : ℕ) (ok : Bool) → j < 16 → d < 2 ^ 12 → append_bits 4 j (d, ok) ≡ (d * 2 ^ 4 + j, ok)
append_4 d j ok h k =
    let keep : d * 2 ^ 4 % u16 ≡ d * 2 ^ 4 = omega arith in
    let letter : (j == no_letter) ≡ false = ground arith in
    rw (keep, letter, bit_or_disjoint 4 d j h) refl

append_2 :
    (d j : ℕ) (ok : Bool) → j < 4 → d < 2 ^ 14 → append_bits 2 j (d, ok) ≡ (d * 2 ^ 2 + j, ok)
append_2 d j ok h k =
    let keep : d * 2 ^ 2 % u16 ≡ d * 2 ^ 2 = omega arith in
    let letter : (j == no_letter) ≡ false = ground arith in
    rw (keep, letter, bit_or_disjoint 2 d j h) refl

read_4 :
    (d j : ℕ) (ok : Bool)
    → j < 16
    → d < 2 ^ 12
    → consonant_to_4bits (get_or consonants j 0) (d, ok) ≡ (d * 2 ^ 4 + j, ok)
unfolding consonant_to_4bits
read_4 d j ok h k = rw (read_consonant j h) (append_4 d j ok h k)

read_2 :
    (d j : ℕ) (ok : Bool)
    → j < 4
    → d < 2 ^ 14
    → vowel_to_2bits (get_or vowels j 0) (d, ok) ≡ (d * 2 ^ 2 + j, ok)
unfolding vowel_to_2bits
read_2 d j ok h k = rw (read_vowel j h) (append_2 d j ok h k)

five_letters :
    (a b c d e : ℕ)
    → a < 16
    → b < 4
    → c < 16
    → d < 4
    → e < 16
    → proquint_to_u16
        (get_or consonants a 0)
        (get_or vowels b 0)
        (get_or consonants c 0)
        (get_or vowels d 0)
        (get_or consonants e 0)
      ≡ (((((0 * 2 ^ 4 + a) * 2 ^ 2 + b) * 2 ^ 4 + c) * 2 ^ 2 + d) * 2 ^ 4 + e, true)
unfolding proquint_to_u16
five_letters a b c d e ha hb hc hd he =
    rw
      (
        read_4 0 a true ha (omega arith),
        read_2 (0 * 2 ^ 4 + a) b true hb (omega arith),
        read_4 ((0 * 2 ^ 4 + a) * 2 ^ 2 + b) c true hc (omega arith),
        read_2 (((0 * 2 ^ 4 + a) * 2 ^ 2 + b) * 2 ^ 4 + c) d true hd (omega arith),
        read_4 ((((0 * 2 ^ 4 + a) * 2 ^ 2 + b) * 2 ^ 4 + c) * 2 ^ 2 + d) e true he (omega arith),
      )
      refl

-- The five letters that are written for a number are read as that number.
read_word :
    (w : ℕ)
    → w < u16
    → proquint_to_u16
        (hi4bits_to_consonant w)
        (hi2bits_to_vowel (shift_out w 4))
        (hi4bits_to_consonant (shift_out (shift_out w 4) 2))
        (hi2bits_to_vowel (shift_out (shift_out (shift_out w 4) 2) 4))
        (hi4bits_to_consonant (shift_out (shift_out (shift_out (shift_out w 4) 2) 4) 2))
      ≡ (w, true)
unfolding hi4bits_to_consonant hi2bits_to_vowel shift_out
read_word w h =
    let w1 = w * 2 ^ 4 % u16 in
    let w2 = w1 * 2 ^ 2 % u16 in
    let w3 = w2 * 2 ^ 4 % u16 in
    let w4 = w3 * 2 ^ 2 % u16 in
    five_letters (w / 2 ^ 12) (w1 / 2 ^ 14) (w2 / 2 ^ 12) (w3 / 2 ^ 14) (w4 / 2 ^ 12) (omega arith)
      (omega arith) (omega arith) (omega arith) (omega arith)
    ∙ ap (λ x. (x, true)) (omega arith)

append_word_lem : (r wk : ℕ) → r < 2 ^ 48 → wk < u16 → append_word r wk ≡ r * 2 ^ 16 + wk
append_word_lem r wk h k =
    let keep : r * 2 ^ 16 % 2 ^ 64 ≡ r * 2 ^ 16 = omega arith in
    rw (keep, bit_or_disjoint 16 r wk k) refl

-- Four words that are read, with hyphens between them.
four_words :
    (s : List ℕ) (w0 w1 w2 w3 : ℕ)
    → length s ≡ 23
    → word_at s 0 ≡ (w0, true)
    → word_at s 6 ≡ (w1, true)
    → word_at s 12 ≡ (w2, true)
    → word_at s 18 ≡ (w3, true)
    → get_or s 5 0 ≡ hyphen
    → get_or s 11 0 ≡ hyphen
    → get_or s 17 0 ≡ hyphen
    → validate s ≡ some (append_word (append_word (append_word w0 w1) w2) w3)
unfolding validate proquint_to_u64
four_words s w0 w1 w2 w3 l h0 h1 h2 h3 g0 g1 g2 = rw (l, h0, h1, h2, h3, g0, g1, g2) refl

-- The string that is written for a key is valid, and is read as the key.
pub validate-proquint_from_u64 : (i : ℕ) → i < 2 ^ 64 → validate (proquint_from_u64 i) ≡ some i
unfolding proquint_from_u64 uint16_to_proquint
validate-proquint_from_u64 i h =
    let w0 = i / 2 ^ 48 % u16 in
    let w1 = i / 2 ^ 32 % u16 in
    let w2 = i / 2 ^ 16 % u16 in
    let w3 = i % u16 in
    let a = append_word_lem w0 w1 (omega arith) (omega arith) in
    let b = append_word_lem (w0 * 2 ^ 16 + w1) w2 (omega arith) (omega arith) in
    let c = append_word_lem ((w0 * 2 ^ 16 + w1) * 2 ^ 16 + w2) w3 (omega arith) (omega arith) in
    four_words (proquint_from_u64 i) w0 w1 w2 w3 refl (read_word w0 (omega arith))
      (read_word w1 (omega arith)) (read_word w2 (omega arith)) (read_word w3 (omega arith)) refl
      refl refl
    ∙ ap some (rw (a, b, c) (omega arith))

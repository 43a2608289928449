-- ===== src/Random.antt =====
-- common/random.cpp: names of random letters and digits. `draw` of the host is the uniform
-- distribution over the places of `letters`.
use partake.Prelude.{
  ℕ, zero, suc, ◌+◌, ◌<◌, Bool, [], ◌∷◌, ltb, if◌then◌else◌, arith, ◌&&◌, leb, ◌||◌, true, ◌≡◌,
  refl, length, ap,
}
use partake.System.{Text, Host}

-- The i-th of "0123456789ABC...Zabc...z".
abbrev pub letter : ℕ → ℕ
letter i = if ltb i 10 then 48 + i else if ltb i 36 then 55 + i else 61 + i

abbrev letters : Host → ℕ → Text
letters h zero = []
letters h (suc n) = letter (h.draw n) ∷ letters h n

unfoldable pub random_string : Host → ℕ → Text
random_string h len = letters h len

abbrev is_alphanumeric : ℕ → Bool
is_alphanumeric c = (leb 48 c && leb c 57) || ((leb 65 c && leb c 90) || (leb 97 c && leb c 122))

abbrev pub AllAlphanumeric : Text → Type 0
AllAlphanumeric [] = Unit {0}
AllAlphanumeric (c ∷ s) = (is_alphanumeric c ≡ true) × AllAlphanumeric s

pub random_string-AllAlphanumeric :
    (h : Host) (len : ℕ) → ((i : ℕ) → h.draw i < 62) → AllAlphanumeric (random_string h len)
unfolding random_string
random_string-AllAlphanumeric h zero d = tt
random_string-AllAlphanumeric h (suc n) d =
    (ground (arith, d n), random_string-AllAlphanumeric h n d)

pub length-random_string : (h : Host) (len : ℕ) → length (random_string h len) ≡ len
unfolding random_string
length-random_string h zero = refl
length-random_string h (suc n) = ap suc (length-random_string h n)

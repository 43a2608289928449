-- ===== src/Text.antt =====
-- What the command line and the page sizes use of the standard library on texts: numbers in
-- decimal, lines and words. A text is the list of its characters' codes.
use partake.Prelude.{
  ℕ, ◌+◌, ◌-◌, ◌*◌, ◌^◌, ◌%◌, ◌≡◌, refl, Bool, true, false, ◌&&◌, ◌||◌, Option, none, some, List,
  [], ◌∷◌, leb, ◌==◌, if◌then◌else◌, arith,
}

abbrev is_blank : ℕ → Bool
is_blank c = c == 32 || (leb 9 c && leb c 13)

abbrev is_digit : ℕ → Bool
is_digit c = leb 48 c && leb c 57

unfoldable pub skip_blanks : List ℕ → List ℕ
skip_blanks [] = []
skip_blanks (c ∷ s) = if is_blank c then skip_blanks s else c ∷ s

-- The number that the digits at the start mean, if there are any, and the rest.
unfoldable pub digits : Option ℕ → List ℕ → Option ℕ × List ℕ
digits n [] = (n, [])
digits none (c ∷ s) =
    let rest = digits (some (c - 48)) s in if is_digit c then rest else (none, c ∷ s)
digits (some n) (c ∷ s) =
    let rest = digits (some (n * 10 + (c - 48))) s in if is_digit c then rest else (some n, c ∷ s)

abbrev signed : Bool → Option ℕ × List ℕ → Option (Bool × ℕ × List ℕ)
signed minus (none, rest) = none
signed minus (some n, rest) = some (minus, n, rest)

abbrev after_sign : List ℕ → Option (Bool × ℕ × List ℕ)
after_sign [] = none
after_sign (c ∷ s) =
    if c == 45
    then signed true (digits none s)
    else if c == 43
    then signed false (digits none s)
    else signed false (digits none (c ∷ s))

-- What `strtol` and `strtoul` read: whether there is a minus sign, the number, and the rest; `none`
-- if there is no number.
unfoldable pub read_number : List ℕ → Option (Bool × ℕ × List ℕ)
unfolding skip_blanks digits
read_number s = after_sign (skip_blanks s)

-- `std::stoul`, with the rest; `none`: an exception. A number with a minus sign wraps around.
unfoldable pub stoul : List ℕ → Option (ℕ × List ℕ)
unfolding read_number
stoul s = elim (read_number s) [
  | none ↦ none
  | some (minus, n, rest) ↦
      if leb (2 ^ 64) n then none else some ((if minus then (2 ^ 64 - n) % 2 ^ 64 else n), rest)
]

unfoldable pub same_text : List ℕ → List ℕ → Bool
same_text [] [] = true
same_text [] (d ∷ t) = false
same_text (c ∷ s) [] = false
same_text (c ∷ s) (d ∷ t) = c == d && same_text s t

same_text_self : (s : List ℕ) → same_text s s ≡ true
unfolding same_text
same_text_self [] = refl
same_text_self (c ∷ s) = ground (arith, same_text_self s)

-- Whether the second text starts with the first, and what follows.
unfoldable pub after_prefix : List ℕ → List ℕ → Option (List ℕ)
after_prefix [] s = some s
after_prefix (c ∷ p) [] = none
after_prefix (c ∷ p) (d ∷ s) = if c == d then after_prefix p s else none

abbrev push : ℕ → List (List ℕ) → List (List ℕ)
push c [] = (c ∷ []) ∷ []
push c (piece ∷ pieces) = (c ∷ piece) ∷ pieces

-- The pieces between the characters of a kind.
unfoldable split_at : (ℕ → Bool) → List ℕ → List (List ℕ)
split_at p [] = [] ∷ []
split_at p (c ∷ s) = let rest = split_at p s in if p c then [] ∷ rest else push c rest

abbrev without_empty : List (List ℕ) → List (List ℕ)
without_empty [] = []
without_empty ([] ∷ pieces) = without_empty pieces
without_empty ((c ∷ s) ∷ pieces) = (c ∷ s) ∷ without_empty pieces

-- `std::getline` until the end, and `>>` into strings until the end.
unfoldable pub lines : List ℕ → List (List ℕ)
unfolding split_at
lines s = split_at (λ c. c == 10) s

unfoldable pub words : List ℕ → List (List ℕ)
unfolding split_at
words s = without_empty (split_at is_blank s)

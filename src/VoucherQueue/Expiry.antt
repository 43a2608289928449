-- ===== src/VoucherQueue/Expiry.antt =====
-- `voucher_queue::drop_expired`: which vouchers leave the queue.
use partake.Prelude.{
  ℕ, zero, suc, ◌+◌, ◌≤◌, ◌<◌, ◌≡◌, refl, true, List, [], ◌∷◌, leb, if◌then◌else◌, length, arith,
  hit, Bool-cases, ◌⊎◌, inl, inr, ◌∙◌, ap,
}
use partake.VoucherQueue.{Entry, top, same_entry, erase_entry, drop_expired}

-- How often an element is in the queue.
abbrev pub count : Entry → List Entry → ℕ
count e [] = 0
count e (x ∷ xs) = hit (same_entry e x) + count e xs

-- Nothing in the queue is earlier than its top, which is in the queue.
abbrev count_expired : ℕ → List Entry → ℕ
count_expired now [] = 0
count_expired now (x ∷ xs) = hit (leb x.time now) + count_expired now xs

top-later :
    (now : ℕ) (x : Entry) (xs : List Entry) → now < (top x xs).time → count_expired now (x ∷ xs) ≡ 0
unfolding top
top-later now x [] h = ground arith
top-later now x (y ∷ xs) h = ground (arith, top-later now y xs)

top-one_of : (x y : Entry) (xs : List Entry) → (top x (y ∷ xs) ≡ x) ⊎ (top x (y ∷ xs) ≡ top y xs)
unfolding top
top-one_of x y xs = elim (Bool-cases (leb x.time (top y xs).time)) [
  | inl e ↦ rw e (inl refl)
  | inr e ↦ rw e (inr refl)
]

top-one : (x : Entry) → top x [] ≡ x
unfolding top
top-one x = refl

count_self : (x : Entry) (xs : List Entry) → 0 < count x (x ∷ xs)
count_self x xs = ground arith

moved : {t u : Entry} (l : List Entry) → t ≡ u → 0 < count u l → 0 < count t l
moved l e h = omega (arith, ap (λ v. count v l) e, h)

count-top : (x : Entry) (xs : List Entry) → 0 < count (top x xs) (x ∷ xs)
count-top x [] = rw (top-one x) (count_self x [])
count-top x (y ∷ xs) = elim (top-one_of x y xs) [
  | inl e ↦ moved (x ∷ y ∷ xs) e (count_self x (y ∷ xs))
  | inr e ↦ moved (x ∷ y ∷ xs) e (later (top y xs) (count-top y xs))
]
  where
    later : (t : Entry) → 0 < count t (y ∷ xs) → 0 < count t (x ∷ y ∷ xs)
    later t h = omega (arith, h)

length-erase :
    (e : Entry) (xs : List Entry) → 0 < count e xs → length (erase_entry e xs) + 1 ≡ length xs
unfolding erase_entry
length-erase e [] h = absurd (omega arith)
length-erase e (x ∷ xs) h = ground (arith, length-erase e xs)

count-erase :
    (e f : Entry) (xs : List Entry)
    → 0 < count e xs
    → count f (erase_entry e xs) + hit (same_entry f e) ≡ count f xs
unfolding erase_entry
count-erase e f [] h = absurd (omega arith)
count-erase e f (x ∷ xs) h = ground (arith, count-erase e f xs)

abbrev unexpired : ℕ → Entry → List Entry → ℕ
unexpired now f xs = if leb f.time now then 0 else count f xs

early-count :
    (now : ℕ) (f : Entry) (xs : List Entry)
    → count_expired now xs ≡ 0
    → leb f.time now ≡ true
    → count f xs ≡ 0
early-count now f [] h e = refl
early-count now f (x ∷ xs) h e = ground (arith, early-count now f xs)

-- With as many rounds as there are vouchers in the queue, exactly those that have not expired stay,
-- each as often as it was in the queue.
pub count-drop_expired :
    (now n : ℕ) (f : Entry) (xs : List Entry)
    → length xs ≤ n
    → count f (drop_expired n now xs) ≡ unexpired now f xs
unfolding drop_expired
count-drop_expired now n f [] h = ground arith
count-drop_expired now zero f (x ∷ xs) h = absurd (ground arith)
count-drop_expired now (suc n) f (x ∷ xs) h =
    let t = top x xs in
    let there = count-top x xs in
    elim (Bool-cases (leb t.time now)) [
      | inl e ↦ rw e (
          count-drop_expired now n f (erase_entry t (x ∷ xs))
            (omega (arith, length-erase t (x ∷ xs) there))
          ∙ ground (arith, count-erase t f (x ∷ xs) there))
      | inr e ↦ rw e (ground (arith, early-count now f (x ∷ xs), top-later now x xs))
    ]

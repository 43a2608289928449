-- ===== src/Object/Handles.antt =====
-- The handles of an object: each setter changes one field of one handle.
use partake.Prelude.{
  ℕ, ◌+◌, ◌≤◌, ◌<◌, ◌≡◌, ◌≢◌, refl, true, false, ◌&&◌, Option, List, [], ◌∷◌, arith, hit, ltb, ◌==◌,
  if◌then◌else◌,
}
use partake.Object.{
  Handle, opens, waits_share, waits_unique, owner, present, set_opens, set_waits_share,
  set_waits_unique, is_set, is_empty,
}

abbrev pub count_open : List Handle → ℕ
count_open [] = 0
count_open (h ∷ hs) = hit (ltb 0 h.open_count) + count_open hs

module _ (i j : ℕ) where
  pub opens-set_opens :
      (n : ℕ) (hs : List Handle)
      → opens j (set_opens i n hs) ≡ (if j == i && present i hs then n else opens j hs)
  unfolding opens set_opens present
  opens-set_opens n [] = ground arith
  opens-set_opens n (h ∷ hs) = ground (arith, opens-set_opens n hs)

  pub waits_share-set_opens :
      (n : ℕ) (hs : List Handle) → waits_share j (set_opens i n hs) ≡ waits_share j hs
  unfolding waits_share set_opens
  waits_share-set_opens n [] = ground arith
  waits_share-set_opens n (h ∷ hs) = ground (arith, waits_share-set_opens n hs)

  pub waits_unique-set_opens :
      (n : ℕ) (hs : List Handle) → waits_unique j (set_opens i n hs) ≡ waits_unique j hs
  unfolding waits_unique set_opens
  waits_unique-set_opens n [] = ground arith
  waits_unique-set_opens n (h ∷ hs) = ground (arith, waits_unique-set_opens n hs)

  pub owner-set_opens : (n : ℕ) (hs : List Handle) → owner j (set_opens i n hs) ≡ owner j hs
  unfolding owner set_opens
  owner-set_opens n [] = ground arith
  owner-set_opens n (h ∷ hs) = ground (arith, owner-set_opens n hs)

  pub present-set_opens : (n : ℕ) (hs : List Handle) → present j (set_opens i n hs) ≡ present j hs
  unfolding present set_opens
  present-set_opens n [] = ground arith
  present-set_opens n (h ∷ hs) = ground (arith, present-set_opens n hs)

  pub opens-set_waits_share :
      (l : List ℕ) (hs : List Handle) → opens j (set_waits_share i l hs) ≡ opens j hs
  unfolding opens set_waits_share
  opens-set_waits_share l [] = ground arith
  opens-set_waits_share l (h ∷ hs) = ground (arith, opens-set_waits_share l hs)

  pub waits_share-set_waits_share :
      (l : List ℕ) (hs : List Handle)
      → waits_share j (set_waits_share i l hs)
        ≡ (if j == i && present i hs then l else waits_share j hs)
  unfolding waits_share set_waits_share present
  waits_share-set_waits_share l [] = ground arith
  waits_share-set_waits_share l (h ∷ hs) = ground (arith, waits_share-set_waits_share l hs)

  pub waits_unique-set_waits_share :
      (l : List ℕ) (hs : List Handle) → waits_unique j (set_waits_share i l hs) ≡ waits_unique j hs
  unfolding waits_unique set_waits_share
  waits_unique-set_waits_share l [] = ground arith
  waits_unique-set_waits_share l (h ∷ hs) = ground (arith, waits_unique-set_waits_share l hs)

  pub owner-set_waits_share :
      (l : List ℕ) (hs : List Handle) → owner j (set_waits_share i l hs) ≡ owner j hs
  unfolding owner set_waits_share
  owner-set_waits_share l [] = ground arith
  owner-set_waits_share l (h ∷ hs) = ground (arith, owner-set_waits_share l hs)

  pub present-set_waits_share :
      (l : List ℕ) (hs : List Handle) → present j (set_waits_share i l hs) ≡ present j hs
  unfolding present set_waits_share
  present-set_waits_share l [] = ground arith
  present-set_waits_share l (h ∷ hs) = ground (arith, present-set_waits_share l hs)

  pub opens-set_waits_unique :
      (o : Option ℕ) (hs : List Handle) → opens j (set_waits_unique i o hs) ≡ opens j hs
  unfolding opens set_waits_unique
  opens-set_waits_unique o [] = ground arith
  opens-set_waits_unique o (h ∷ hs) = ground (arith, opens-set_waits_unique o hs)

  pub waits_share-set_waits_unique :
      (o : Option ℕ) (hs : List Handle) → waits_share j (set_waits_unique i o hs) ≡ waits_share j hs
  unfolding waits_share set_waits_unique
  waits_share-set_waits_unique o [] = ground arith
  waits_share-set_waits_unique o (h ∷ hs) = ground (arith, waits_share-set_waits_unique o hs)

  pub waits_unique-set_waits_unique :
      (o : Option ℕ) (hs : List Handle)
      → waits_unique j (set_waits_unique i o hs)
        ≡ (if j == i && present i hs then o else waits_unique j hs)
  unfolding waits_unique set_waits_unique present
  waits_unique-set_waits_unique o [] = ground arith
  waits_unique-set_waits_unique o (h ∷ hs) = ground (arith, waits_unique-set_waits_unique o hs)

module _ (i : ℕ) where
  pub count_open-set_opens :
      (n : ℕ) (hs : List Handle)
      → present i hs ≡ true
      → count_open (set_opens i n hs) + hit (ltb 0 (opens i hs)) ≡ count_open hs + hit (ltb 0 n)
  unfolding set_opens opens present
  count_open-set_opens n [] e = cc
  count_open-set_opens n (h ∷ hs) e = ground (arith, count_open-set_opens n hs)

  pub count_open-set_waits_share :
      (l : List ℕ) (hs : List Handle) → count_open (set_waits_share i l hs) ≡ count_open hs
  unfolding set_waits_share
  count_open-set_waits_share l [] = refl
  count_open-set_waits_share l (h ∷ hs) = ground (arith, count_open-set_waits_share l hs)

  pub count_open-set_waits_unique :
      (o : Option ℕ) (hs : List Handle) → count_open (set_waits_unique i o hs) ≡ count_open hs
  unfolding set_waits_unique
  count_open-set_waits_unique o [] = refl
  count_open-set_waits_unique o (h ∷ hs) = ground (arith, count_open-set_waits_unique o hs)

  -- A handle with something to show is there.
  pub opens-present : (hs : List Handle) → 0 < opens i hs → present i hs ≡ true
  unfolding opens present
  opens-present [] h = absurd (omega arith)
  opens-present (x ∷ hs) h = ground (arith, opens-present hs)

  pub waits_share-present :
      (hs : List Handle) → is_empty (waits_share i hs) ≡ false → present i hs ≡ true
  unfolding waits_share present
  waits_share-present [] h = cc
  waits_share-present (x ∷ hs) h = ground (arith, waits_share-present hs)

  pub waits_unique-present :
      (hs : List Handle) → is_set (waits_unique i hs) ≡ true → present i hs ≡ true
  unfolding waits_unique present
  waits_unique-present [] h = cc
  waits_unique-present (x ∷ hs) h = ground (arith, waits_unique-present hs)

  pub opens-le-count : (hs : List Handle) → hit (ltb 0 (opens i hs)) ≤ count_open hs
  unfolding opens
  opens-le-count [] = ground arith
  opens-le-count (x ∷ hs) = ground (arith, opens-le-count hs)

-- Two open handles are two.
pub two_open :
    (i j : ℕ) (hs : List Handle)
    → i ≢ j
    → hit (ltb 0 (opens i hs)) + hit (ltb 0 (opens j hs)) ≤ count_open hs
unfolding opens
two_open i j [] h = ground arith
two_open i j (x ∷ hs) h =
    ground (arith, two_open i j hs h, opens-le-count i hs, opens-le-count j hs)

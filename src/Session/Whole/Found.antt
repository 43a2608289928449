-- ===== src/Session/Whole/Found.antt =====
-- daemon/session.hpp: an object that a request finds is the one at its address.
use mathlib.Core.Path.{subst}
use partake.Prelude.{
  ℕ, ◌≡◌, ◌≤◌, refl, ap, true, false, Option, none, some, List, [], ◌∷◌, ◌==◌, ◌∙◌, Bool-cases,
  Option-cases, inl, inr, if◌then◌else◌, arith, some_inj,
}
use partake.Object.{Handle, Object, present}
use partake.Session.{
  World, find_handle, find_target, object_at, object_with_key, voucher_with_key, hooked_handle,
  is_valid,
}
use partake.Session.Ledger.{ledger, objects_at}
use partake.Session.Ledger.Found.{found_at}

hooked_there :
    (s : ℕ) (hs : List Handle) (i : ℕ) → hooked_handle s hs ≡ some i → present i hs ≡ true
unfolding hooked_handle present
hooked_there s [] i e = cc
hooked_there s (h ∷ hs) i e = ground (arith, hooked_there s hs i)

-- The object that is found with a handle is the one at its address.
pub found_there :
    (s k : ℕ) (os : List Object) (o : Object) (i : ℕ)
    → ((b : ℕ) → objects_at b (ledger os) ≤ 1)
    → find_handle s k os ≡ some (o, i)
    → (object_at o.address os ≡ some o) × (present i o.handles ≡ true)
unfolding find_handle object_at
found_there s k [] o i d e = absurd (cc)
found_there s k (p ∷ os) o i d e =
    go (if k == p.key then hooked_handle s p.handles else none) refl
      (λ q. found_there s k os o i (λ b. omega (arith, d b)) q) e
  where
    skipped : object_at o.address os ≡ some o → object_at o.address (p ∷ os) ≡ some o
    skipped q =
        let other : (o.address == p.address) ≡ false =
          ground (arith, found_at o.address os o q, d o.address) in
        rw (object_at, other) q

    go :
        (r : Option ℕ)
        → (if k == p.key then hooked_handle s p.handles else none) ≡ r
        → (find_handle s k os ≡ some (o, i)
            → (object_at o.address os ≡ some o) × (present i o.handles ≡ true))
        → find_handle s k (p ∷ os) ≡ some (o, i)
        → (object_at o.address (p ∷ os) ≡ some o) × (present i o.handles ≡ true)
    go none q ih e = let (there, here) = ih (rw (find_handle, q) at e) in (skipped there, here)
    go (some j) q ih e =
        let at_once : object_at p.address (p ∷ os) ≡ some p = ground arith in
        let hooked : hooked_handle s p.handles ≡ some j = ground (arith, q) in
        let found : some (p, j) ≡ some (o, i) = rw (find_handle, q) at e in
        subst (λ x. (object_at x.0.address (p ∷ os) ≡ some x.0) × (present x.1 x.0.handles ≡ true))
          (some_inj found) (at_once, hooked_there s p.handles j hooked)

key_there :
    (k : ℕ) (os : List Object) (o : Object)
    → ((b : ℕ) → objects_at b (ledger os) ≤ 1)
    → object_with_key k os ≡ some o
    → object_at o.address os ≡ some o
unfolding object_with_key object_at
key_there k [] o d e = absurd (cc)
key_there k (p ∷ os) o d e = elim (Bool-cases (k == p.key)) [
  | inl q ↦
      let at_once : object_at p.address (p ∷ os) ≡ some p = ground arith in
      subst (λ x. object_at x.address (p ∷ os) ≡ some x) (some_inj (rw q at e)) at_once
  | inr q ↦
      let rest = key_there k os o (λ b. omega (arith, d b)) (rw q at e) in
      let other : (o.address == p.address) ≡ false =
        ground (arith, found_at o.address os o rest, d o.address) in
      rw (object_at, other) rest
]

address_there : (a : ℕ) (os : List Object) (o : Object) → object_at a os ≡ some o → o.address ≡ a
unfolding object_at
address_there a [] o e = absurd (cc)
address_there a (p ∷ os) o e = elim (Bool-cases (a == p.address)) [
  | inl q ↦ ground (arith, q, ap (λ x. x.address) (some_inj (rw q at e)))
  | inr q ↦ address_there a os o (rw q at e)
]

pub target_there :
    (k now : ℕ) (w : World) (o : Object) (vchr : Option ℕ)
    → ((b : ℕ) → objects_at b (ledger w.objects) ≤ 1)
    → find_target k now w ≡ some (o, vchr)
    → object_at o.address w.objects ≡ some o
unfolding find_target
target_there k now w o vchr d e = elim (Option-cases (object_with_key k w.objects)) [
  | inr (p, q) ↦
      subst (λ x. object_at x.address w.objects ≡ some x)
        (ap (λ r. r.0) (some_inj (rw (find_target, q) at e))) (key_there k w.objects p d q)
  | inl q ↦ elim (Option-cases (voucher_with_key k w.vouchers)) [
    | inl f ↦ absurd (cc (rw (find_target, q, f) at e))
    | inr (v, f) ↦ elim (Bool-cases (is_valid v now)) [
      | inr g ↦ absurd (cc (rw (find_target, q, f, g) at e))
      | inl g ↦ elim (Option-cases (object_at v.target w.objects)) [
        | inl t ↦ absurd (cc (rw (find_target, q, f, g, t) at e))
        | inr (p, t) ↦
            subst (λ x. object_at x.address w.objects ≡ some x)
              (ap (λ r. r.0) (some_inj (rw (find_target, q, f, g, t) at e)))
              (ap (λ a. object_at a w.objects) (address_there v.target w.objects p t) ∙ t)
      ]
    ]
  ]
]

-- A session that has no handle for a key has none for the object with that key.
key_free :
    (s k : ℕ) (os : List Object) (o : Object)
    → find_handle s k os ≡ none
    → object_with_key k os ≡ some o
    → hooked_handle s o.handles ≡ none
unfolding find_handle object_with_key
key_free s k [] o e f = absurd (cc)
key_free s k (p ∷ os) o e f =
    go (if k == p.key then hooked_handle s p.handles else none) refl (λ q r. key_free s k os o q r)
      e
  where
    go :
        (r : Option ℕ)
        → (if k == p.key then hooked_handle s p.handles else none) ≡ r
        → (find_handle s k os ≡ none
            → object_with_key k os ≡ some o
            → hooked_handle s o.handles ≡ none)
        → find_handle s k (p ∷ os) ≡ none
        → hooked_handle s o.handles ≡ none
    go none q ih e = elim (Bool-cases (k == p.key)) [
      | inl t ↦
          subst (λ x. hooked_handle s x.handles ≡ none) (some_inj (rw t at f))
            (ground (arith, q, t))
      | inr t ↦ ih (rw (find_handle, q) at e) (rw t at f)
    ]
    go (some j) q ih e = absurd (ground (arith, rw (find_handle, q) at e))

-- What is found by no voucher has the key itself.
found_by_key :
    (k now : ℕ) (w : World) (o : Object)
    → find_target k now w ≡ some (o, none)
    → object_with_key k w.objects ≡ some o
unfolding find_target
found_by_key k now w o f = elim (Option-cases (object_with_key k w.objects)) [
  | inr (p, q) ↦ q ∙ ground (arith, rw (find_target, q) at f)
  | inl q ↦ elim (Option-cases (voucher_with_key k w.vouchers)) [
    | inl r ↦ absurd (ground (arith, rw (find_target, q, r) at f))
    | inr (v, r) ↦ elim (Bool-cases (is_valid v now)) [
      | inr u ↦ absurd (ground (arith, rw (find_target, q, r, u) at f))
      | inl u ↦ elim (Option-cases (object_at v.target w.objects)) [
        | inl t ↦ absurd (ground (arith, rw (find_target, q, r, u, t) at f))
        | inr (p, t) ↦ absurd (ground (arith, rw (find_target, q, r, u, t) at f))
      ]
    ]
  ]
]

-- A session has no handle for what it finds as a target, if it does not find one of its own by the
-- key of a voucher.
pub target_free :
    (s k now : ℕ) (w : World) (o : Object) (vchr : Option ℕ)
    → find_handle s k w.objects ≡ none
    → find_target k now w ≡ some (o, vchr)
    → ((p : Object) (j : ℕ)
        → find_target k now w ≡ some (p, some j)
        → hooked_handle s p.handles ≡ none)
    → hooked_handle s o.handles ≡ none
target_free s k now w o (some j) e f single = single o j f
target_free s k now w o none e f single = key_free s k w.objects o e (found_by_key k now w o f)

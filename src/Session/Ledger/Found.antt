-- ===== src/Session/Ledger/Found.antt =====
-- daemon/repository.hpp: an object that is found is in the ledger.
use mathlib.Core.Path.{subst}
use partake.Prelude.{
  ℕ, ◌≡◌, ◌<◌, refl, ap, Option, none, some, List, [], ◌∷◌, ◌==◌, Bool-cases, Option-cases, inl,
  inr, if◌then◌else◌, arith, some_inj,
}
use mathlib.Core.Option
use partake.Object.{Object}
use partake.Session.{
  World, find_handle, find_target, object_at, object_with_key, voucher_with_key, hooked_handle,
  is_valid,
}
use partake.Session.Ledger.{ledger, objects_at}

pub found_handle :
    (s k : ℕ) (os : List Object) (o : Object) (i : ℕ)
    → find_handle s k os ≡ some (o, i)
    → 0 < objects_at o.address (ledger os)
unfolding find_handle
found_handle s k [] o i e = absurd (cc)
found_handle s k (p ∷ os) o i e =
    go (if k == p.key then hooked_handle s p.handles else none) refl
      (λ q. found_handle s k os o i q) e
  where
    go :
        (r : Option ℕ)
        → (if k == p.key then hooked_handle s p.handles else none) ≡ r
        → (find_handle s k os ≡ some (o, i) → 0 < objects_at o.address (ledger os))
        → find_handle s k (p ∷ os) ≡ some (o, i)
        → 0 < objects_at o.address (ledger (p ∷ os))
    go none q ih e = omega (arith, ih (rw (find_handle, q) at e))
    go (some j) q ih e =
        let same_object : p ≡ o = ap (λ r. r.0) (some_inj (rw (find_handle, q) at e)) in
        subst (λ x. 0 < objects_at x.address (ledger (p ∷ os))) same_object (ground arith)

found_key :
    (k : ℕ) (os : List Object) (o : Object)
    → object_with_key k os ≡ some o
    → 0 < objects_at o.address (ledger os)
unfolding object_with_key
found_key k [] o e = absurd (cc)
found_key k (p ∷ os) o e = elim (Bool-cases (k == p.key)) [
  | inl q ↦
      subst (λ x. 0 < objects_at x.address (ledger (p ∷ os))) (some_inj (rw q at e)) (ground arith)
  | inr q ↦ omega (arith, found_key k os o (rw q at e))
]

pub found_at :
    (a : ℕ) (os : List Object) (o : Object)
    → object_at a os ≡ some o
    → 0 < objects_at o.address (ledger os)
unfolding object_at
found_at a [] o e = absurd (cc)
found_at a (p ∷ os) o e = elim (Bool-cases (a == p.address)) [
  | inl q ↦
      subst (λ x. 0 < objects_at x.address (ledger (p ∷ os))) (some_inj (rw q at e)) (ground arith)
  | inr q ↦ omega (arith, found_at a os o (rw q at e))
]

pub found_target :
    (k now : ℕ) (w : World) (o : Object) (vchr : Option ℕ)
    → find_target k now w ≡ some (o, vchr)
    → 0 < objects_at o.address (ledger w.objects)
unfolding find_target
found_target k now w o vchr e = go (object_with_key k w.objects) refl
  where
    at_target :
        (a : ℕ) (r : Option Object)
        → object_at a w.objects ≡ r
        → Option.map {B = Object × Option ℕ} (λ p. (p, some k)) r ≡ some (o, vchr)
        → 0 < objects_at o.address (ledger w.objects)
    at_target a none q e = absurd (cc)
    at_target a (some p) q e =
        subst (λ x. 0 < objects_at x.address (ledger w.objects)) (ap (λ r. r.0) (some_inj e))
          (found_at a w.objects p q)

    go :
        (r : Option Object)
        → object_with_key k w.objects ≡ r
        → 0 < objects_at o.address (ledger w.objects)
    go (some p) q =
        subst (λ x. 0 < objects_at x.address (ledger w.objects))
          (ap (λ r. r.0) (some_inj (rw (find_target, q) at e))) (found_key k w.objects p q)
    go none q = elim (Option-cases (voucher_with_key k w.vouchers)) [
      | inl f ↦ absurd (cc (rw (find_target, q, f) at e))
      | inr (v, f) ↦ elim (Bool-cases (is_valid v now)) [
        | inl g ↦
            at_target v.target (object_at v.target w.objects) refl (rw (find_target, q, f, g) at e)
        | inr g ↦ absurd (cc (rw (find_target, q, f, g) at e))
      ]
    ]

-- ===== src/Session/Whole/Opening.antt =====
-- daemon/session.hpp: `alloc`, `open` and the requests about vouchers keep all objects valid.
use mathlib.Core.Path.{subst}
use partake.Prelude.{
  ℕ, ◌^◌, ◌≡◌, ◌<◌, sym, ap, true, false, Bool, Option, none, some, List, [], ◌∷◌, ◌∙◌, ◌⊎◌,
  Bool-cases, Option-cases, inl, inr, arith, some_inj,
}
use partake.Protocol.{Policy}
use partake.Object.{handle_open, Handle, Object, Cell, present, contains, waits_share}
use partake.Closing.{add_request_pending_on_share}
use partake.Closing.Invariant.{Distinct}
use partake.Session.{
  World, update, find_handle, find_target, object_at, claim_voucher, claim_in, fresh, create_handle,
  hooked_handle,
}
use partake.Session.Requests.{
  open_with, with_handle, open_object, open_request, can_open_immediately, open_claimed,
}
use partake.Session.Invariant.{open_with-IsValid, open_with_new-IsValid, above-absent}
use partake.Session.Ledger.Identity.{ids, Keeps-ids}
use partake.Session.Ledger.Kept.{core-handle_open, core-add_request}
use partake.Session.Ledger.Released.{Balanced}
use partake.Session.Whole.{IsOk, IsWhole, update-IsWhole}
use partake.Session.Ledger.Requested.{open_object-Balanced, opened_unclaimed}
use partake.Session.Whole.Found.{found_there, target_there, target_free}
use partake.Session.Whole.Kept.{release-IsWhole, present-ids}

pub claimed-IsWhole :
    (k now : ℕ) (w w' : World) → claim_voucher k now w ≡ some w' → IsWhole w → IsWhole w'
claimed-IsWhole k now w w' e h = elim (Option-cases (claim_in k now w.vouchers)) [
  | inl q ↦ absurd (ground (arith, rw (claim_voucher, q) at e))
  | inr (vs, q) ↦
      let e' : record w { vouchers = vs } ≡ w' = some_inj (rw (claim_voucher, q) at e) in
      subst IsWhole e' (record { sound = h.sound; objects = h.objects })
]

objects-claimed :
    (k now : ℕ) (w w' : World) → claim_voucher k now w ≡ some w' → w.objects ≡ w'.objects
objects-claimed k now w w' e = elim (Option-cases (claim_in k now w.vouchers)) [
  | inl q ↦ absurd (ground (arith, rw (claim_voucher, q) at e))
  | inr (vs, q) ↦
      let e' : record w { vouchers = vs } ≡ w' = some_inj (rw (claim_voucher, q) at e) in
      ap (λ v. v.objects) e'
]

-- What `open` does with the object, if it does anything, it does when that is ready.
module _ (s : ℕ) (o : Object) (hnd : Option ℕ) (policy : Policy) (wait : Bool) (now seqno : ℕ)
    (w : World) where
  open_ready :
      ((open_object s o hnd none policy wait now seqno w).1 ≡ w)
      ⊎ (((open_object s o hnd none policy wait now seqno w).1
            ≡ update o.address (open_with s hnd seqno) w)
          × ((can_open_immediately o ≡ true) ⊎ (0 < o.n_open_handles)))
  unfolding open_object open_claimed
  open_ready = ground arith

  open_claimed_ready :
      (k : ℕ) (v : World)
      → claim_voucher k now w ≡ some v
      → ((open_object s o hnd (some k) policy wait now seqno w).1 ≡ w)
        ⊎ (((open_object s o hnd (some k) policy wait now seqno w).1 ≡ v)
            ⊎ (((open_object s o hnd (some k) policy wait now seqno w).1
                  ≡ update o.address (open_with s hnd seqno) v)
                × ((can_open_immediately o ≡ true) ⊎ (0 < o.n_open_handles))))
  unfolding open_object open_claimed
  open_claimed_ready k v q = rw (open_object, q) (ground arith)

-- A new handle has a number of its own.
fresh_absent : (hs : List Handle) → contains (fresh hs) (ids hs) ≡ false
fresh_absent hs = sym (present-ids (fresh hs) hs) ∙ above-absent (fresh hs) hs (omega arith)

ids-open_with_new :
    (s seqno : ℕ) (c : Cell)
    → ids (open_with s none seqno c).obj.handles ≡ fresh c.obj.handles ∷ ids c.obj.handles
unfolding open_with with_handle create_handle
ids-open_with_new s seqno c =
    let d = create_handle s c in
    let i = fresh c.obj.handles in
    elim (Bool-cases (can_open_immediately c.obj)) [
      | inl e ↦ rw e (Keeps-ids (handle_open i) d (core-handle_open i))
      | inr e ↦ rw e (Keeps-ids (add_request_pending_on_share i seqno) d (core-add_request i seqno))
    ]

ids-open_with :
    (s i seqno : ℕ) (c : Cell) → ids (open_with s (some i) seqno c).obj.handles ≡ ids c.obj.handles
unfolding open_with with_handle
ids-open_with s i seqno c = elim (Bool-cases (can_open_immediately c.obj)) [
  | inl e ↦ rw e (Keeps-ids (handle_open i) c (core-handle_open i))
  | inr e ↦ rw e (Keeps-ids (add_request_pending_on_share i seqno) c (core-add_request i seqno))
]

open_with_new-IsOk :
    (s seqno : ℕ) (c : Cell)
    → hooked_handle s c.obj.handles ≡ none
    → (can_open_immediately c.obj ≡ true) ⊎ (0 < c.obj.n_open_handles)
    → IsOk c
    → IsOk (open_with s none seqno c)
open_with_new-IsOk s seqno c free ready h = record {
  valid = open_with_new-IsValid s seqno c h.valid free ready;
  distinct =
      subst Distinct (sym (ids-open_with_new s seqno c)) (fresh_absent c.obj.handles, h.distinct);
}

open_with-IsOk :
    (s i seqno : ℕ) (c : Cell)
    → present i c.obj.handles ≡ true
    → waits_share i c.obj.handles ≡ []
    → (can_open_immediately c.obj ≡ true) ⊎ (0 < c.obj.n_open_handles)
    → IsOk c
    → IsOk (open_with s (some i) seqno c)
open_with-IsOk s i seqno c there quiet ready h = record {
  valid = open_with-IsValid s seqno c h.valid i there quiet ready;
  distinct = subst Distinct (sym (ids-open_with s i seqno c)) h.distinct;
}

module _ (size : ℕ) (small : size < 2 ^ 64) where
  opened_new-IsWhole :
      (s : ℕ) (o : Object) (vchr : Option ℕ) (policy : Policy) (wait : Bool) (now seqno : ℕ)
      (w : World)
      → object_at o.address w.objects ≡ some o
      → hooked_handle s o.handles ≡ none
      → IsWhole w
      → IsWhole (open_object s o none vchr policy wait now seqno w).1
  opened_new-IsWhole s o none policy wait now seqno w there free h =
      elim (open_ready s o none policy wait now seqno w) [
        | inl e ↦ rw e h
        | inr (e, ready) ↦ rw e (
            update-IsWhole o.address (open_with s none seqno) w o there
              (λ ok. open_with_new-IsOk s seqno (record { obj = o; env = w.env }) free ready ok) h)
      ]
  opened_new-IsWhole s o (some k) policy wait now seqno w there free h =
      elim (Option-cases (claim_voucher k now w)) [
        | inl q ↦ rw (opened_unclaimed s o none policy wait now seqno w k q) h
        | inr (v, q) ↦
            let h' = claimed-IsWhole k now w v q h in
            elim (open_claimed_ready s o none policy wait now seqno w k v q) [
              | inl e ↦ rw e h
              | inr (inl e) ↦ rw e h'
              | inr (inr (e, ready)) ↦ rw e (
                  update-IsWhole o.address (open_with s none seqno) v o
                    (subst (λ os. object_at o.address os ≡ some o) (objects-claimed k now w v q)
                      there)
                    (λ ok.
                      open_with_new-IsOk s seqno (record { obj = o; env = v.env }) free ready ok)
                    h')
            ]
      ]

  opened-IsWhole :
      (s : ℕ) (o : Object) (i : ℕ) (policy : Policy) (wait : Bool) (now seqno : ℕ) (w : World)
      → object_at o.address w.objects ≡ some o
      → present i o.handles ≡ true
      → waits_share i o.handles ≡ []
      → IsWhole w
      → IsWhole (open_object s o (some i) none policy wait now seqno w).1
  opened-IsWhole s o i policy wait now seqno w there here quiet h =
      elim (open_ready s o (some i) policy wait now seqno w) [
        | inl e ↦ rw e h
        | inr (e, ready) ↦ rw e (
            update-IsWhole o.address (open_with s (some i) seqno) w o there
              (λ ok. open_with-IsOk s i seqno (record { obj = o; env = w.env }) here quiet ready ok)
              h)
      ]

  pub open_request-IsWhole :
      (s k : ℕ) (policy : Policy) (wait : Bool) (now seqno : ℕ) (w : World)
      → ((o : Object) (i : ℕ)
          → find_handle s k w.objects ≡ some (o, i)
          → waits_share i o.handles ≡ [])
      → ((o : Object) (j : ℕ)
          → find_target k now w ≡ some (o, some j)
          → hooked_handle s o.handles ≡ none)
      → Balanced size w
      → IsWhole w
      → IsWhole (open_request s k policy wait now seqno w).1
  unfolding open_request
  open_request-IsWhole s k policy wait now seqno w quiet single b h =
      elim (Option-cases (find_handle s k w.objects)) [
        | inr ((o, i), q) ↦
            let (there, here) = found_there s k w.objects o i b.distinct q in
            rw (open_request, q)
              (release-IsWhole size (open_object s o (some i) none policy wait now seqno w).1
                (open_object-Balanced size small s o (some i) none policy wait now seqno w b)
                (opened-IsWhole s o i policy wait now seqno w there here (quiet o i q) h))
        | inl q ↦ elim (Option-cases (find_target k now w)) [
          | inl f ↦ rw (open_request, q, f) h
          | inr ((o, vchr), f) ↦
              rw (open_request, q, f)
                (release-IsWhole size (open_object s o none vchr policy wait now seqno w).1
                  (open_object-Balanced size small s o none vchr policy wait now seqno w b)
                  (opened_new-IsWhole s o vchr policy wait now seqno w
                    (target_there k now w o vchr b.distinct f)
                    (target_free s k now w o vchr q f single) h))
        ]
      ]

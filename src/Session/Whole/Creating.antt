-- ===== src/Session/Whole/Creating.antt =====
-- daemon/session.hpp: new objects and vouchers keep all objects valid.
use partake.Prelude.{
  ℕ, ◌+◌, ◌^◌, ◌≡◌, ◌<◌, refl, true, false, Option, none, some, List, [], ◌∷◌, ◌==◌, leb,
  Bool-cases, Option-cases, inl, inr, arith,
}
use partake.KeySequence.{generate}
use partake.Protocol.{Policy, default, primitive}
use partake.Object.{set_opens, handle_open, Object, Cell, Env, contains}
use partake.Closing.{set_exclusive_writer, add_voucher}
use partake.Session.{
  at_object, World, update, find_handle, find_target, object_at, object_with_key, voucher_with_key,
  claim_voucher, fresh, create_handle,
}
use partake.Session.Requests.{
  alloc, take_resource, create_object, first_handle, free_address, new_object, create_voucher,
  discard_voucher, voucher_for,
}
use partake.Session.Invariant.{first_handle-IsValid, add_voucher-IsValid}
use partake.Session.Ledger.{ledger, objects_at}
use partake.Session.Ledger.Kept.{row-first_handle}
use partake.Session.Ledger.Released.{Balanced}
use partake.Session.Ledger.Balanced.{
  kept-Balanced, created-Balanced, claimed-Balanced, vouchered, vouchered-Balanced,
}
use partake.Session.Whole.{IsOk, IsWhole, update-IsWhole}
use partake.Session.Whole.Kept.{release-IsWhole}
use partake.Session.Ledger.Found.{found_handle, found_target}
use partake.Session.Whole.{AreOk-env}
use partake.Session.Whole.Opening.{claimed-IsWhole}

none_at : (a : ℕ) (os : List Object) → object_at a os ≡ none → objects_at a (ledger os) ≡ 0
unfolding object_at
none_at a [] e = refl
none_at a (p ∷ os) e = ground (arith, none_at a os)

-- An object that is counted is there.
somewhere :
    (a : ℕ) (os : List Object)
    → 0 < objects_at a (ledger os)
    → (o : Object) × (object_at a os ≡ some o)
somewhere a os h = elim (Option-cases (object_at a os)) [
  | inl e ↦ absurd (ground (arith, h, none_at a os e))
  | inr r ↦ r
]

add_voucher-IsOk : (c : Cell) → IsOk c → IsOk (add_voucher c)
unfolding add_voucher
add_voucher-IsOk c h = record { valid = add_voucher-IsValid c h.valid; distinct = h.distinct }

-- The first handle of a new object.
first-IsOk :
    (s : ℕ) (policy : Policy) (resource : Option ℕ) (w : World) (env : Env)
    → env.fault ≡ false
    → IsOk (first_handle s policy (record { obj = new_object policy resource w; env = env }))
unfolding first_handle create_handle handle_open set_exclusive_writer set_opens fresh contains
first-IsOk s default resource w env e = record {
  valid = first_handle-IsValid s default resource w env e;
  distinct = (refl, tt);
}
first-IsOk s primitive resource w env e = record {
  valid = first_handle-IsValid s primitive resource w env e;
  distinct = (refl, tt);
}

module _ (size : ℕ) (small : size < 2 ^ 64) where
  vouchered-IsWhole :
      (o : Object) (count expiry : ℕ) (w : World)
      → 0 < objects_at o.address (ledger w.objects)
      → IsWhole w
      → IsWhole (vouchered o count expiry w)
  vouchered-IsWhole o count expiry w there h =
      let (p, e) = somewhere o.address w.objects there in
      let w' = update o.address add_voucher w in
      let added =
        update-IsWhole o.address add_voucher w p e
          (λ ok. add_voucher-IsOk (record { obj = p; env = w.env }) ok) h in
      record {
        sound = added.sound;
        objects =
            AreOk-env w'.objects w'.env (record w'.env { prev_key = generate w.env.prev_key })
              added.sound added.objects;
      }

  voucher_for-IsWhole :
      (o : Object) (count expiry : ℕ) (w : World)
      → 0 < objects_at o.address (ledger w.objects)
      → Balanced size w
      → IsWhole w
      → IsWhole (voucher_for o count expiry w).1
  unfolding voucher_for
  voucher_for-IsWhole o count expiry w there b h =
      release-IsWhole size (vouchered o count expiry w)
        (vouchered-Balanced size small o count expiry w there b)
        (vouchered-IsWhole o count expiry w there h)

  pub create_voucher-IsWhole :
      (s target count now ttl : ℕ) (w : World)
      → Balanced size w
      → IsWhole w
      → IsWhole (create_voucher s target count now ttl w).1
  unfolding create_voucher
  create_voucher-IsWhole s target count now ttl w b h = elim (Bool-cases (count == 0)) [
    | inl e ↦ rw (create_voucher, e) h
    | inr e ↦ elim (Option-cases (find_handle s target w.objects)) [
      | inr ((o, i), q) ↦
          rw (create_voucher, e, q)
            (voucher_for-IsWhole o count (now + ttl) w (found_handle s target w.objects o i q) b h)
      | inl q ↦ elim (Option-cases (find_target target now w)) [
        | inl f ↦ rw (create_voucher, e, q, f) h
        | inr ((o, vchr), f) ↦
            rw (create_voucher, e, q, f)
              (voucher_for-IsWhole o count (now + ttl) w (found_target target now w o vchr f) b h)
      ]
    ]
  ]

  pub discard_voucher-IsWhole :
      (k now : ℕ) (w : World) → Balanced size w → IsWhole w → IsWhole (discard_voucher k now w).1
  unfolding discard_voucher
  discard_voucher-IsWhole k now w b h = elim (Option-cases (object_with_key k w.objects)) [
    | inr (o, q) ↦ rw (discard_voucher, q) h
    | inl q ↦ elim (Option-cases (voucher_with_key k w.vouchers)) [
      | inl f ↦ rw (discard_voucher, q, f) h
      | inr (v, f) ↦ elim (Option-cases (claim_voucher k now w)) [
        | inl g ↦ rw (discard_voucher, q, f, g) h
        | inr (w', g) ↦ elim (Option-cases (object_at v.target w.objects)) [
          | inl t ↦ rw (discard_voucher, q, f, g, t) h
          | inr (o, t) ↦
              rw (discard_voucher, q, f, g, t)
                (release-IsWhole size w' (claimed-Balanced size small k now w w' g b)
                  (claimed-IsWhole k now w w' g h))
        ]
      ]
    ]
  ]

  created-IsWhole :
      (s : ℕ) (policy : Policy) (resource : Option ℕ) (w : World)
      → IsWhole w
      → IsWhole (
          update (free_address w.objects) (first_handle s policy) (create_object policy resource w))
  unfolding create_object update at_object
  created-IsWhole s policy resource w h =
      let at_once : (free_address w.objects == free_address w.objects) ≡ true = ground arith in
      let env : Env = record w.env { prev_key = generate w.env.prev_key } in
      let ok = first-IsOk s policy resource w env h.sound in
      let d = first_handle s policy (record { obj = new_object policy resource w; env = env }) in
      rw at_once (record {
        sound = ok.valid.sound;
        objects = (ok, AreOk-env w.objects w.env d.env ok.valid.sound h.objects);
      })

  pub alloc-IsWhole :
      (shift s bytes : ℕ) (policy : Policy) (w : World)
      → Balanced size w
      → IsWhole w
      → IsWhole (alloc shift s bytes policy w).1
  unfolding alloc
  alloc-IsWhole shift s bytes policy w b h = elim (Bool-cases (leb (2 ^ 64) bytes)) [
    | inl e ↦ rw (alloc, e) h
    | inr e ↦
        let (resource, a) = take_resource shift bytes w.arena in
        let w' = create_object policy resource (record w { arena = a }) in
        rw (alloc, e)
          (release-IsWhole size (update (free_address w.objects) (first_handle s policy) w')
            (kept-Balanced size small (free_address w.objects) (first_handle s policy) w'
              (row-first_handle s policy) (created-Balanced size small shift bytes policy w b))
            (created-IsWhole s policy resource (record w { arena = a })
              (record { sound = h.sound; objects = h.objects })))
  ]

-- ===== src/Session/Whole/Departure.antt =====
-- daemon/session.hpp, daemon/voucher_queue.hpp: the ends of sessions and vouchers keep all objects
-- valid.
use mathlib.Core.Path.{subst}
use partake.Prelude.{
  ℕ, ◌^◌, ◌≡◌, ◌<◌, refl, sym, ap, Bool, none, List, [], ◌∷◌, ◌==◌, Bool-cases, Option-cases, inl,
  inr,
}
use partake.Object.{Object, Cell, Env}
use partake.Closing.{drop_pending_requests, close_all}
use partake.Session.{at_object, World, update, object_at, hooked_handle}
use partake.Session.Release.{release}
use partake.Session.Ledger.Kept.{
  row-drop_pending_requests, row-close_all, core-drop_pending_requests, core-close_all,
}
use partake.Session.Ledger.Released.{Balanced}
use partake.Session.Whole.{IsOk, IsWhole, update-IsWhole}
use partake.Session.Whole.Handlers.{kept-IsOk}
use partake.Session.Whole.Kept.{release-IsWhole}
use partake.Closing.Close.Opens.{close_all-closed}
use partake.Closing.Waiting.{drop_pending_requests-IsValid}
use partake.Session.{Voucher}
use partake.Session.Departure.{
  each_object, on_hooked, addresses, drop_session_requests, close_session, expire,
}
use partake.Session.Ledger.Lifetime.{each_object-Balanced, expire-Balanced}

-- Where no object is, nothing changes.
at_object-none :
    (a : ℕ) (f : Cell → Cell) (os : List Object) (env : Env)
    → object_at a os ≡ none
    → at_object a f os env ≡ (os, env)
unfolding at_object object_at
at_object-none a f [] env e = refl
at_object-none a f (o ∷ os) env e = elim (Bool-cases (a == o.address)) [
  | inl q ↦ absurd (cc (rw q at e))
  | inr q ↦ simp q (ap (λ r. (o ∷ r.0, r.1)) (at_object-none a f os env (rw q at e)))
]

update-none :
    (a : ℕ) (f : Cell → Cell) (w : World)
    → object_at a w.objects ≡ none
    → IsWhole w
    → IsWhole (update a f w)
unfolding update
update-none a f w e h =
    subst (λ r. IsWhole (record w { objects = r.0; env = r.1 }))
      (sym (at_object-none a f w.objects w.env e)) h

module _ (size : ℕ) (small : size < 2 ^ 64) where
  on_hooked-IsOk :
      (s : ℕ) (f : ℕ → Cell → Cell)
      → ((i : ℕ) (c : Cell) → IsOk c → IsOk (f i c))
      → (c : Cell) → IsOk c
      → IsOk (on_hooked s f c)
  on_hooked-IsOk s f k c h = elim (Option-cases (hooked_handle s c.obj.handles)) [
    | inl q ↦ rw (on_hooked, q) h
    | inr (i, q) ↦ rw (on_hooked, q) (k i c h)
  ]

  each_object-IsWhole :
      (s : ℕ) (f : ℕ → Cell → Cell) (as' : List ℕ) (w : World)
      → ((i : ℕ) (c : Cell) → IsOk c → IsOk (f i c))
      → IsWhole w
      → IsWhole (each_object s f as' w)
  unfolding each_object
  each_object-IsWhole s f [] w k h = h
  each_object-IsWhole s f (a ∷ as') w k h =
      each_object-IsWhole s f as' (update a (on_hooked s f) w) k
        (elim (Option-cases (object_at a w.objects)) [
          | inr (o, e) ↦
              update-IsWhole a (on_hooked s f) w o e
                (λ ok. on_hooked-IsOk s f k (record { obj = o; env = w.env }) ok) h
          | inl e ↦ update-none a (on_hooked s f) w e h
        ])

  dropped-IsOk : (i : ℕ) (c : Cell) → IsOk c → IsOk (drop_pending_requests i c)
  dropped-IsOk i c h =
      kept-IsOk (drop_pending_requests i) c (core-drop_pending_requests i)
        (drop_pending_requests-IsValid i c h.valid) h

  closed-IsOk : (i : ℕ) (c : Cell) → IsOk c → IsOk (close_all i c)
  closed-IsOk i c h =
      kept-IsOk (close_all i) c (core-close_all i) (close_all-closed i c h.valid).0 h

  pub drop_session_requests-IsWhole :
      (s : ℕ) (w : World) → Balanced size w → IsWhole w → IsWhole (drop_session_requests s w)
  unfolding drop_session_requests
  drop_session_requests-IsWhole s w b h =
      let as' = addresses w.objects in
      release-IsWhole size (each_object s drop_pending_requests as' w)
        (each_object-Balanced size small s drop_pending_requests as' w row-drop_pending_requests b)
        (each_object-IsWhole s drop_pending_requests as' w dropped-IsOk h)

  pub close_session-IsWhole :
      (s : ℕ) (w : World) → Balanced size w → IsWhole w → IsWhole (close_session s w)
  unfolding close_session
  close_session-IsWhole s w b h =
      let as' = addresses w.objects in
      let w' = each_object s drop_pending_requests as' w in
      let b' =
        each_object-Balanced size small s drop_pending_requests as' w row-drop_pending_requests b in
      release-IsWhole size (each_object s close_all as' w')
        (each_object-Balanced size small s close_all as' w' row-close_all b')
        (each_object-IsWhole s close_all as' w' closed-IsOk
          (each_object-IsWhole s drop_pending_requests as' w dropped-IsOk h))

  pub expired-IsWhole :
      (p : Voucher → Bool) (w : World)
      → Balanced size w
      → IsWhole w
      → IsWhole (release (record w { vouchers = expire p w.vouchers }))
  expired-IsWhole p w b h =
      release-IsWhole size (record w { vouchers = expire p w.vouchers })
        (expire-Balanced size small p w b) (record { sound = h.sound; objects = h.objects })

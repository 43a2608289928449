-- ===== src/Session/Whole/Kept.antt =====
-- daemon/session.hpp: an object whose handles that nothing refers to any more have ended is valid
-- as before.
use partake.Prelude.{
  ◌≤◌, ◌<◌, ap, ◌++◌, Option-cases, some_inj, ℕ, ◌≡◌, refl, false, some, List, [], ◌∷◌, ◌==◌, ◌∙◌,
  Bool-cases, inl, inr, arith, sym,
}
use mathlib.Core.Path.{subst}
use partake.Arena.{Arena}
use partake.Object.{present, Handle, Object, Cell, Env, opens, waits_share, waits_unique, contains}
use partake.Object.Handles.{count_open}
use partake.Closing.{drop_voucher}
use partake.Closing.Invariant.{Distinct}
use partake.Session.{Voucher, World, object_at, update}
use partake.Session.Release.{
  release, release_vouchers, is_idle, keep_handles, release_objects, is_unused,
}
use partake.Session.Ledger.Identity.{ids}
use partake.Session.Invariant.{
  drop_voucher-IsValid, absent_opens, absent_waits_share, absent_waits_unique,
}
use partake.Session.Ledger.{ledger, objects_at, vouchers_at, no_vouchers}
use partake.Session.Ledger.Kept.{core-drop_voucher}
use partake.Session.Ledger.Memory.{not_found}
use partake.Session.Ledger.Released.{
  Balanced, IsSettled, IsSettled-start, kept-IsSettled, dropped-IsSettled,
}
use partake.Session.Whole.{IsWhole, update-IsWhole, IsOk, AreOk}

absent :
    (j : ℕ) (hs : List Handle)
    → contains j (ids hs) ≡ false
    → contains j (ids (keep_handles hs)) ≡ false
unfolding keep_handles contains
absent j [] e = e
absent j (h ∷ hs) e = ground (arith, absent j hs)

Distinct-keep_handles : (hs : List Handle) → Distinct (ids hs) → Distinct (ids (keep_handles hs))
unfolding keep_handles contains
Distinct-keep_handles [] d = d
Distinct-keep_handles (h ∷ hs) d = elim (Bool-cases (is_idle h)) [
  | inl e ↦ simp e (Distinct-keep_handles hs d.1)
  | inr e ↦ simp e (absent h.id hs d.0, Distinct-keep_handles hs d.1)
]

pub present-ids : (j : ℕ) (hs : List Handle) → present j hs ≡ contains j (ids hs)
unfolding present contains
present-ids j [] = refl
present-ids j (h ∷ hs) = ground (arith, present-ids j hs)

opens-keep_handles :
    (j : ℕ) (hs : List Handle) → Distinct (ids hs) → opens j (keep_handles hs) ≡ opens j hs
unfolding keep_handles opens
opens-keep_handles j [] d = refl
opens-keep_handles j (h ∷ hs) d =
    ground (arith, opens-keep_handles j hs d.1, absent_opens j hs, present-ids j hs, d.0)

waits_share-keep_handles :
    (j : ℕ) (hs : List Handle)
    → Distinct (ids hs)
    → waits_share j (keep_handles hs) ≡ waits_share j hs
unfolding keep_handles waits_share
waits_share-keep_handles j [] d = refl
waits_share-keep_handles j (h ∷ hs) d =
    ground
      (arith, waits_share-keep_handles j hs d.1, absent_waits_share j hs, present-ids j hs, d.0)

waits_unique-keep_handles :
    (j : ℕ) (hs : List Handle)
    → Distinct (ids hs)
    → waits_unique j (keep_handles hs) ≡ waits_unique j hs
unfolding keep_handles waits_unique
waits_unique-keep_handles j [] d = refl
waits_unique-keep_handles j (h ∷ hs) d =
    ground
      (arith, waits_unique-keep_handles j hs d.1, absent_waits_unique j hs, present-ids j hs, d.0)

count_open-keep_handles : (hs : List Handle) → count_open (keep_handles hs) ≡ count_open hs
unfolding keep_handles
count_open-keep_handles [] = refl
count_open-keep_handles (h ∷ hs) = ground (arith, count_open-keep_handles hs)

IsOk-keep_handles :
    (o : Object) (env : Env)
    → IsOk (record { obj = o; env = env })
    → IsOk (record { obj = record o { handles = keep_handles o.handles }; env = env })
IsOk-keep_handles o env h =
    let v = h.valid in
    record {
      valid = record {
        sound = v.sound;
        counted = v.counted ∙ sym (count_open-keep_handles o.handles);
        written = λ w e. rw (opens-keep_handles w o.handles h.distinct) (v.written w e);
        writable = v.writable;
        waiting = λ j. rw (waits_share-keep_handles j o.handles h.distinct) (v.waiting j);
        once = v.once;
        blocked = v.blocked;
        reserved = λ j. rw (waits_unique-keep_handles j o.handles h.distinct) (v.reserved j);
        pending = λ w e. rw (opens-keep_handles w o.handles h.distinct) (v.pending w e);
        plain = v.plain;
      };
      distinct = Distinct-keep_handles o.handles h.distinct;
    }

release_objects-AreOk :
    (os : List Object) (a : Arena) (env : Env) → AreOk os env → AreOk (release_objects os a).0 env
unfolding release_objects
release_objects-AreOk [] a env h = h
release_objects-AreOk (o ∷ os) a env h = elim (Bool-cases (is_unused o)) [
  | inl u ↦ simp u (release_objects-AreOk os a env h.1)
  | inr u ↦ simp u (IsOk-keep_handles o env h.0, release_objects-AreOk os a env h.1)
]

-- What an object counts is what the ledger has at its address.
vouchers_at-object_at :
    (a : ℕ) (os : List Object) (o : Object)
    → object_at a os ≡ some o
    → objects_at a (ledger os) ≤ 1
    → vouchers_at a (ledger os) ≡ o.n_vouchers
unfolding object_at
vouchers_at-object_at a [] o e h = absurd (cc)
vouchers_at-object_at a (p ∷ os) o e h = elim (Bool-cases (a == p.address)) [
  | inl q ↦
      let same_object : p ≡ o = some_inj (rw q at e) in
      let none_else : vouchers_at a (ledger os) ≡ 0 =
        no_vouchers a (ledger os) (ground (arith, h, q)) in
      ground (arith, none_else, q, ap (λ x. x.n_vouchers) same_object)
  | inr q ↦ ground (arith, q, vouchers_at-object_at a os o (rw q at e) (ground (arith, q, h)))
]

drop_voucher-IsOk : (c : Cell) → IsOk c → 0 < c.obj.n_vouchers → IsOk (drop_voucher c)
drop_voucher-IsOk c h p = record {
  valid = drop_voucher-IsValid c h.valid p;
  distinct = subst Distinct (sym (ap (λ q. q.1) (core-drop_voucher c))) h.distinct;
}

module _ (size : ℕ) where
  dropped-IsWhole :
      (v : Voucher) (vs : List Voucher) (w : World)
      → IsSettled size (v ∷ vs) w
      → IsWhole w
      → IsWhole (update v.target drop_voucher w)
  dropped-IsWhole v vs w b h = elim (Option-cases (object_at v.target w.objects)) [
    | inl e ↦ absurd (ground (arith, b.counted v.target, not_found v.target w.objects e))
    | inr (o, e) ↦
        let counts = vouchers_at-object_at v.target w.objects o e (b.distinct v.target) in
        update-IsWhole v.target drop_voucher w o e
          (λ ok.
            drop_voucher-IsOk (record { obj = o; env = w.env }) ok
              (ground (arith, counts, b.counted v.target)))
          h
  ]

  release_vouchers-IsWhole :
      (vs : List Voucher) (w : World)
      → IsSettled size vs w
      → IsWhole w
      → IsWhole (release_vouchers vs w)
  unfolding release_vouchers
  release_vouchers-IsWhole [] w b h = h
  release_vouchers-IsWhole (v ∷ vs) w b h = elim (Bool-cases v.queued) [
    | inl e ↦ simp e (
        release_vouchers-IsWhole vs (record w { vouchers = w.vouchers ++ v ∷ [] })
          (kept-IsSettled size v vs w b) (record { sound = h.sound; objects = h.objects }))
    | inr e ↦ simp e (
        release_vouchers-IsWhole vs (update v.target drop_voucher w)
          (dropped-IsSettled size v vs w b) (dropped-IsWhole v vs w b h))
  ]

  -- What ends when nothing refers to it any more leaves the objects that stay valid.
  pub release-IsWhole : (w : World) → Balanced size w → IsWhole w → IsWhole (release w)
  unfolding release
  release-IsWhole w b h =
      let w0 : World = record w { vouchers = [] } in
      let w' = release_vouchers w.vouchers w0 in
      let mid =
        release_vouchers-IsWhole w.vouchers w0 (IsSettled-start size w b)
          (record { sound = h.sound; objects = h.objects }) in
      record {
        sound = mid.sound;
        objects = release_objects-AreOk w'.objects w'.arena w'.env mid.objects;
      }

-- ===== src/Session/Whole/Handlers.antt =====
-- daemon/session.hpp: the handlers of the requests keep all objects valid.
use mathlib.Core.Path.{subst}
use partake.Prelude.{
  ℕ, ◌^◌, ◌≡◌, ◌<◌, sym, true, false, Bool, none, some, ◌==◌, ◌⊎◌, Bool-cases, Option-cases, inl,
  inr, arith,
}
use partake.Object.{Object, Cell, is_id, opens, do_unshare, is_open_uniquely}
use partake.Object.Handles.{opens-present}
use partake.Closing.{share, handle_close, set_request_pending_on_unique}
use partake.Closing.Invariant.{IsValid, Distinct}
use partake.Closing.Share.{share-Shared}
use partake.Closing.Close.{handle_close-IsValid}
use partake.Closing.Waiting.{set_request-IsValid}
use partake.Session.{World, update, find_handle, object_at}
use partake.Session.Release.{release}
use partake.Session.Requests.{close, share_object, unshare_object, unshare}
use partake.Session.Invariant.{do_unshare-IsValid}
use partake.Session.Ledger.Identity.{Keeps, Keeps-ids}
use partake.Session.Ledger.Kept.{
  core-share, core-handle_close, core-do_unshare, core-set_request, row-share, row-handle_close,
  row-do_unshare, row-set_request,
}
use partake.Session.Ledger.Released.{Balanced}
use partake.Session.Ledger.Balanced.{kept-Balanced}
use partake.Session.Whole.{IsOk, IsWhole, update-IsWhole}
use partake.Session.Whole.Found.{found_there}
use partake.Session.Whole.Kept.{release-IsWhole}

pub kept-IsOk : (f : Cell → Cell) (c : Cell) → Keeps f → IsValid (f c) → IsOk c → IsOk (f c)
kept-IsOk f c k v h = record {
  valid = v;
  distinct = subst Distinct (sym (Keeps-ids f c k)) h.distinct;
}

unshare_ready :
    (o : Object) (i : ℕ) (wait : Bool) (seqno : ℕ) (w : World)
    → ((unshare_object o i wait seqno w).1 ≡ w)
      ⊎ ((((unshare_object o i wait seqno w).1 ≡ release (update o.address (do_unshare i) w))
            × (o.shared ≡ true)
            × (o.awaiting_unique ≡ none)
            × (is_open_uniquely i o ≡ true))
          ⊎ (((unshare_object o i wait seqno w).1
                ≡ release (update o.address (set_request_pending_on_unique i seqno) w))
              × (0 < opens i o.handles)
              × (o.shared ≡ true)
              × (o.awaiting_unique ≡ none)
              × (is_open_uniquely i o ≡ false)))
unfolding unshare_object
unshare_ready o i wait seqno w = ground arith

module _ (size : ℕ) (small : size < 2 ^ 64) where
  pub share_object-IsWhole :
      (s k : ℕ) (w : World) → Balanced size w → IsWhole w → IsWhole (share_object s k w).1
  unfolding share_object
  share_object-IsWhole s k w b h = elim (Option-cases (find_handle s k w.objects)) [
    | inl q ↦ rw (share_object, q) h
    | inr ((o, i), q) ↦ elim (Bool-cases (is_id i o.exc_writer)) [
      | inr e ↦ rw (share_object, q, e) h
      | inl e ↦
          rw (share_object, q, e)
            (release-IsWhole size (update o.address share w)
              (kept-Balanced size small o.address share w row-share b)
              (update-IsWhole o.address share w o (found_there s k w.objects o i b.distinct q).0
                (λ ok.
                  let c : Cell = record { obj = o; env = w.env } in
                  kept-IsOk share c core-share (share-Shared c ok.valid i (ground (arith, e))).valid
                    ok)
                h))
    ]
  ]

  pub close-IsWhole : (s k : ℕ) (w : World) → Balanced size w → IsWhole w → IsWhole (close s k w).1
  unfolding close
  close-IsWhole s k w b h = elim (Option-cases (find_handle s k w.objects)) [
    | inl q ↦ rw (close, q) h
    | inr ((o, i), q) ↦ elim (Bool-cases (opens i o.handles == 0)) [
      | inl e ↦ rw (close, q, e) h
      | inr e ↦
          rw (close, q, e)
            (release-IsWhole size (update o.address (handle_close i) w)
              (kept-Balanced size small o.address (handle_close i) w (row-handle_close i) b)
              (update-IsWhole o.address (handle_close i) w o
                (found_there s k w.objects o i b.distinct q).0
                (λ ok.
                  let c : Cell = record { obj = o; env = w.env } in
                  kept-IsOk (handle_close i) c (core-handle_close i)
                    (handle_close-IsValid i c ok.valid (ground (arith, e))) ok)
                h))
    ]
  ]

  unshare_object-IsWhole :
      (o : Object) (i : ℕ) (wait : Bool) (seqno : ℕ) (w : World)
      → object_at o.address w.objects ≡ some o
      → Balanced size w
      → IsWhole w
      → IsWhole (unshare_object o i wait seqno w).1
  unshare_object-IsWhole o i wait seqno w there b h = elim (unshare_ready o i wait seqno w) [
    | inl e ↦ rw e h
    | inr (inl (e, is_shared, nobody, alone)) ↦ rw e (
        release-IsWhole size (update o.address (do_unshare i) w)
          (kept-Balanced size small o.address (do_unshare i) w (row-do_unshare i) b)
          (update-IsWhole o.address (do_unshare i) w o there
            (λ ok.
              let c : Cell = record { obj = o; env = w.env } in
              kept-IsOk (do_unshare i) c (core-do_unshare i)
                (do_unshare-IsValid i c ok.valid is_shared nobody alone) ok)
            h))
    | inr (inr (e, open', is_shared, nobody, more)) ↦ rw e (
        release-IsWhole size (update o.address (set_request_pending_on_unique i seqno) w)
          (kept-Balanced size small o.address (set_request_pending_on_unique i seqno) w
            (row-set_request i seqno) b)
          (update-IsWhole o.address (set_request_pending_on_unique i seqno) w o there
            (λ ok.
              let c : Cell = record { obj = o; env = w.env } in
              kept-IsOk (set_request_pending_on_unique i seqno) c (core-set_request i seqno)
                (set_request-IsValid i seqno c ok.valid (opens-present i o.handles open') open'
                  is_shared nobody (ground (arith, more)))
                ok)
            h))
  ]

  pub unshare-IsWhole :
      (s k : ℕ) (wait : Bool) (seqno : ℕ) (w : World)
      → Balanced size w
      → IsWhole w
      → IsWhole (unshare s k wait seqno w).1
  unfolding unshare
  unshare-IsWhole s k wait seqno w b h = elim (Option-cases (find_handle s k w.objects)) [
    | inl q ↦ rw (unshare, q) h
    | inr ((o, i), q) ↦
        rw (unshare, q)
          (unshare_object-IsWhole o i wait seqno w (found_there s k w.objects o i b.distinct q).0 b
            h)
  ]

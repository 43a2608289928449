-- ===== src/Session/Ledger/Requested.antt =====
-- daemon/session.hpp, daemon/voucher_queue.hpp: the books of the vouchers and the memory, through
-- any requests of any sessions, their ends, and the expiry of vouchers.
use partake.Prelude.{
  ℕ, ◌+◌, ◌^◌, ◌≡◌, ◌<◌, refl, true, false, Bool, Option, none, some, ◌==◌, ◌⊎◌, Bool-cases,
  Option-cases, inl, inr, if◌then◌else◌, arith,
}
use partake.Protocol.{Policy}
use partake.Object.{Object, do_unshare}
use partake.Closing.{share, handle_close, set_request_pending_on_unique}
use partake.Session.{
  World, Answer, update, find_handle, find_target, object_at, object_with_key, voucher_with_key,
  claim_voucher,
}
use partake.Session.Release.{release}
use partake.Session.Requests.{
  alloc, first_handle, free_address, open_claimed, open_with, open_object, open_request, close,
  share_object, unshare_object, unshare, create_voucher, discard_voucher,
}
use partake.Session.Ledger.Kept.{
  row-first_handle, row-open_with, row-handle_close, row-share, row-do_unshare, row-set_request,
}
use partake.Session.Ledger.Released.{Balanced, release-Balanced}
use partake.Session.Ledger.Found.{found_handle, found_target}
use partake.Session.Ledger.Balanced.{
  kept-Balanced, claimed-Balanced, added-Balanced, created-Balanced,
}

unshared_world :
    (o : Object) (i : ℕ) (wait : Bool) (seqno : ℕ) (w : World)
    → ((unshare_object o i wait seqno w).1 ≡ w)
      ⊎ (((unshare_object o i wait seqno w).1 ≡ release (update o.address (do_unshare i) w))
          ⊎ ((unshare_object o i wait seqno w).1
              ≡ release (update o.address (set_request_pending_on_unique i seqno) w)))
unfolding unshare_object
unshared_world o i wait seqno w = ground arith

module _ (s : ℕ) (o : Object) (hnd : Option ℕ) (policy : Policy) (wait : Bool) (now seqno : ℕ)
    (w : World) where
  opened_world :
      ((open_object s o hnd none policy wait now seqno w).1 ≡ w)
      ⊎ ((open_object s o hnd none policy wait now seqno w).1
          ≡ update o.address (open_with s hnd seqno) w)
  unfolding open_object open_claimed
  opened_world = ground arith

  pub opened_unclaimed :
      (k : ℕ)
      → claim_voucher k now w ≡ none
      → (open_object s o hnd (some k) policy wait now seqno w).1 ≡ w
  unfolding open_object open_claimed
  opened_unclaimed k q = rw (open_object, q) (ground arith)

  opened_claimed :
      (k : ℕ) (v : World)
      → claim_voucher k now w ≡ some v
      → ((open_object s o hnd (some k) policy wait now seqno w).1 ≡ w)
        ⊎ (((open_object s o hnd (some k) policy wait now seqno w).1 ≡ v)
            ⊎ ((open_object s o hnd (some k) policy wait now seqno w).1
                ≡ update o.address (open_with s hnd seqno) v))
  unfolding open_object open_claimed
  opened_claimed k v q = rw (open_object, q) (ground arith)

module _ (size : ℕ) (small : size < 2 ^ 64) where
  if_Balanced :
      (b : Bool) (x y : Answer × World)
      → Balanced size x.1
      → Balanced size y.1
      → Balanced size (if b then x else y).1
  if_Balanced true x y h k = h
  if_Balanced false x y h k = k

  pub alloc-Balanced :
      (shift s bytes : ℕ) (policy : Policy) (w : World)
      → Balanced size w
      → Balanced size (alloc shift s bytes policy w).1
  unfolding alloc
  alloc-Balanced shift s bytes policy w h = if_Balanced _ _ _ h (
      release-Balanced size _ small (
        kept-Balanced size small (free_address w.objects) (first_handle s policy) _
          (row-first_handle s policy) (created-Balanced size small shift bytes policy w h)))

  pub share_object-Balanced :
      (s k : ℕ) (w : World) → Balanced size w → Balanced size (share_object s k w).1
  unfolding share_object
  share_object-Balanced s k w h = go (find_handle s k w.objects) refl
    where
      go :
          (r : Option (Object × ℕ))
          → find_handle s k w.objects ≡ r
          → Balanced size (share_object s k w).1
      go none q = rw (share_object, q) h
      go (some (o, i)) q =
          rw (share_object, q)
            (if_Balanced _ _ _
              (release-Balanced size _ small
                (kept-Balanced size small o.address share w row-share h))
              h)

  pub close-Balanced : (s k : ℕ) (w : World) → Balanced size w → Balanced size (close s k w).1
  unfolding close
  close-Balanced s k w h = go (find_handle s k w.objects) refl
    where
      go : (r : Option (Object × ℕ)) → find_handle s k w.objects ≡ r → Balanced size (close s k w).1
      go none q = rw (close, q) h
      go (some (o, i)) q =
          rw (close, q)
            (if_Balanced _ _ _ h (
              release-Balanced size _ small
                (kept-Balanced size small o.address (handle_close i) w (row-handle_close i) h)))

  unshare_object-Balanced :
      (o : Object) (i : ℕ) (wait : Bool) (seqno : ℕ) (w : World)
      → Balanced size w
      → Balanced size (unshare_object o i wait seqno w).1
  unfolding unshare_object
  unshare_object-Balanced o i wait seqno w h = elim (unshared_world o i wait seqno w) [
    | inl e ↦ rw e h
    | inr (inl e) ↦ rw e (
        release-Balanced size (update o.address (do_unshare i) w) small
          (kept-Balanced size small o.address (do_unshare i) w (row-do_unshare i) h))
    | inr (inr e) ↦ rw e (
        release-Balanced size (update o.address (set_request_pending_on_unique i seqno) w) small (
          kept-Balanced size small o.address (set_request_pending_on_unique i seqno) w
            (row-set_request i seqno) h))
  ]

  pub unshare-Balanced :
      (s k : ℕ) (wait : Bool) (seqno : ℕ) (w : World)
      → Balanced size w
      → Balanced size (unshare s k wait seqno w).1
  unfolding unshare
  unshare-Balanced s k wait seqno w h = go (find_handle s k w.objects) refl
    where
      go :
          (r : Option (Object × ℕ))
          → find_handle s k w.objects ≡ r
          → Balanced size (unshare s k wait seqno w).1
      go none q = rw (unshare, q) h
      go (some (o, i)) q = rw (unshare, q) (unshare_object-Balanced o i wait seqno w h)

  pub open_object-Balanced :
      (s : ℕ) (o : Object) (hnd vchr : Option ℕ) (policy : Policy) (wait : Bool) (now seqno : ℕ)
      (w : World)
      → Balanced size w
      → Balanced size (open_object s o hnd vchr policy wait now seqno w).1
  open_object-Balanced s o hnd none policy wait now seqno w h =
      elim (opened_world s o hnd policy wait now seqno w) [
        | inl e ↦ rw e h
        | inr e ↦ rw e (
            kept-Balanced size small o.address (open_with s hnd seqno) w (row-open_with s hnd seqno)
              h)
      ]
  open_object-Balanced s o hnd (some k) policy wait now seqno w h =
      elim (Option-cases (claim_voucher k now w)) [
        | inl q ↦ rw (opened_unclaimed s o hnd policy wait now seqno w k q) h
        | inr (v, q) ↦
            let h' = claimed-Balanced size small k now w v q h in
            elim (opened_claimed s o hnd policy wait now seqno w k v q) [
              | inl e ↦ rw e h
              | inr (inl e) ↦ rw e h'
              | inr (inr e) ↦ rw e (
                  kept-Balanced size small o.address (open_with s hnd seqno) v
                    (row-open_with s hnd seqno) h')
            ]
      ]

  pub open_request-Balanced :
      (s k : ℕ) (policy : Policy) (wait : Bool) (now seqno : ℕ) (w : World)
      → Balanced size w
      → Balanced size (open_request s k policy wait now seqno w).1
  unfolding open_request
  open_request-Balanced s k policy wait now seqno w h = go (find_handle s k w.objects) refl
    where
      target :
          (r : Option (Object × Option ℕ))
          → find_target k now w ≡ r
          → find_handle s k w.objects ≡ none
          → Balanced size (open_request s k policy wait now seqno w).1
      target none f q = rw (open_request, q, f) h
      target (some (o, vchr)) f q =
          rw (open_request, q, f)
            (release-Balanced size _ small
              (open_object-Balanced s o none vchr policy wait now seqno w h))

      go :
          (r : Option (Object × ℕ))
          → find_handle s k w.objects ≡ r
          → Balanced size (open_request s k policy wait now seqno w).1
      go none q = target (find_target k now w) refl q
      go (some (o, i)) q =
          rw (open_request, q)
            (release-Balanced size _ small
              (open_object-Balanced s o (some i) none policy wait now seqno w h))

  pub create_voucher-Balanced :
      (s target count now ttl : ℕ) (w : World)
      → Balanced size w
      → Balanced size (create_voucher s target count now ttl w).1
  unfolding create_voucher
  create_voucher-Balanced s target count now ttl w h = elim (Bool-cases (count == 0)) [
    | inl e ↦ rw (create_voucher, e) h
    | inr e ↦ elim (Option-cases (find_handle s target w.objects)) [
      | inr ((o, i), q) ↦
          rw (create_voucher, e, q)
            (added-Balanced size small o count (now + ttl) w (found_handle s target w.objects o i q)
              h)
      | inl q ↦ elim (Option-cases (find_target target now w)) [
        | inl f ↦ rw (create_voucher, e, q, f) h
        | inr ((o, vchr), f) ↦
            rw (create_voucher, e, q, f)
              (added-Balanced size small o count (now + ttl) w (found_target target now w o vchr f)
                h)
      ]
    ]
  ]

  pub discard_voucher-Balanced :
      (k now : ℕ) (w : World) → Balanced size w → Balanced size (discard_voucher k now w).1
  unfolding discard_voucher
  discard_voucher-Balanced k now w h = elim (Option-cases (object_with_key k w.objects)) [
    | inr (o, q) ↦ rw (discard_voucher, q) h
    | inl q ↦ elim (Option-cases (voucher_with_key k w.vouchers)) [
      | inl f ↦ rw (discard_voucher, q, f) h
      | inr (v, f) ↦ elim (Option-cases (claim_voucher k now w)) [
        | inl g ↦ rw (discard_voucher, q, f, g) h
        | inr (w', g) ↦ elim (Option-cases (object_at v.target w.objects)) [
          | inl t ↦ rw (discard_voucher, q, f, g, t) h
          | inr (o, t) ↦
              rw (discard_voucher, q, f, g, t)
                (release-Balanced size w' small (claimed-Balanced size small k now w w' g h))
        ]
      ]
    ]
  ]

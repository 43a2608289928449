-- ===== src/Session/Expired.antt =====
-- daemon/voucher_queue.hpp and daemon/repository.hpp: which vouchers are left after some leave the
-- queue.
use partake.Prelude.{
  ℕ, ◌≡◌, ◌∙◌, refl, true, ◌&&◌, List, [], ◌∷◌, ◌++◌, append_assoc, append-nil, ap, sym, leb, ltb,
  if◌then◌else◌, arith, Bool-cases, inl, inr,
}
use partake.Closing.{drop_voucher}
use partake.Session.{Voucher, World, update}
use partake.Session.Release.{release, release_vouchers}
use partake.Session.Departure.{expire, drop_expired_vouchers, drop_all_vouchers}

abbrev queued : List Voucher → List Voucher
queued [] = []
queued (v ∷ vs) = if v.queued then v ∷ queued vs else queued vs

vouchers-update : (v : Voucher) (w : World) → (update v.target drop_voucher w).vouchers ≡ w.vouchers
unfolding update
vouchers-update v w = refl

vouchers-release_vouchers :
    (vs : List Voucher) (w : World) → (release_vouchers vs w).vouchers ≡ w.vouchers ++ queued vs
unfolding release_vouchers
vouchers-release_vouchers [] w = sym (append-nil w.vouchers)
vouchers-release_vouchers (v ∷ vs) w = elim (Bool-cases v.queued) [
  | inl e ↦ simp e (
      vouchers-release_vouchers vs (record w { vouchers = w.vouchers ++ v ∷ [] })
      ∙ append_assoc w.vouchers (v ∷ []) (queued vs))
  | inr e ↦ simp e (
      vouchers-release_vouchers vs (update v.target drop_voucher w)
      ∙ ap (λ l. l ++ queued vs) (vouchers-update v w))
]

vouchers-release : (w : World) → (release w).vouchers ≡ queued w.vouchers
unfolding release
vouchers-release w = vouchers-release_vouchers w.vouchers (record w { vouchers = [] })

-- The vouchers that are in the queue and expire later.
abbrev pub unexpired : ℕ → List Voucher → List Voucher
unexpired now [] = []
unexpired now (v ∷ vs) =
    if v.queued && ltb now v.expiry then v ∷ unexpired now vs else unexpired now vs

expire-unexpired :
    (now : ℕ) (vs : List Voucher) → queued (expire (λ v. leb v.expiry now) vs) ≡ unexpired now vs
unfolding expire
expire-unexpired now [] = refl
expire-unexpired now (v ∷ vs) = ground (arith, expire-unexpired now vs)

-- When the expired vouchers are dropped, those are left that are in the queue and expire later,
-- unchanged and in their order.
vouchers-drop_expired :
    (now : ℕ) (w : World) → (drop_expired_vouchers now w).vouchers ≡ unexpired now w.vouchers
unfolding drop_expired_vouchers
vouchers-drop_expired now w =
    vouchers-release (record w { vouchers = expire (λ v. leb v.expiry now) w.vouchers })
    ∙ expire-unexpired now w.vouchers

expire_all : (vs : List Voucher) → queued (expire (λ v. true) vs) ≡ []
unfolding expire
expire_all [] = refl
expire_all (v ∷ vs) = ground (arith, expire_all vs)

-- None is left at the end.
pub vouchers-drop_all : (w : World) → (drop_all_vouchers w).vouchers ≡ []
unfolding drop_all_vouchers
vouchers-drop_all w =
    vouchers-release (record w { vouchers = expire (λ v. true) w.vouchers }) ∙ expire_all w.vouchers

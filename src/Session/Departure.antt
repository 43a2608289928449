-- ===== src/Session/Departure.antt =====
-- daemon/session.hpp, daemon/voucher_queue.hpp: the end of a session, and vouchers that expire.
use partake.Prelude.{ℕ, Bool, true, ◌&&◌, not, none, some, List, [], ◌∷◌, leb}
use partake.Object.{Object, Cell}
use partake.Closing.{drop_pending_requests, close_all}
use partake.Session.{Voucher, World, update, hooked_handle}
use partake.Session.Release.{release}

-- The handles of a session, by object.
unfoldable pub addresses : List Object → List ℕ
addresses [] = []
addresses (o ∷ os) = o.address ∷ addresses os

abbrev pub on_hooked : ℕ → (ℕ → Cell → Cell) → Cell → Cell
on_hooked s f c = elim (hooked_handle s c.obj.handles) [ none ↦ c | some i ↦ f i c ]

unfoldable pub each_object : ℕ → (ℕ → Cell → Cell) → List ℕ → World → World
each_object s f [] w = w
each_object s f (a ∷ as') w = each_object s f as' (update a (on_hooked s f) w)

-- `drop_pending_requests`, of the session.
unfoldable pub drop_session_requests : ℕ → World → World
unfolding each_object drop_pending_requests addresses release
drop_session_requests s w = release (each_object s drop_pending_requests (addresses w.objects) w)

-- `close_session`, without its assertions that no handle of the session is left.
unfoldable pub close_session : ℕ → World → World
unfolding each_object drop_pending_requests addresses close_all release
close_session s w =
    let w' = each_object s drop_pending_requests (addresses w.objects) w in
    release (each_object s close_all (addresses w.objects) w')

-- `voucher_queue::drop_expired`: the vouchers that have expired leave it.
-- `voucher_queue::drop_all`: so do those that are left over at the end. Vouchers that leave together
-- end in the order of the list, and not the earliest first.
unfoldable pub expire : (Voucher → Bool) → List Voucher → List Voucher
expire p [] = []
expire p (v ∷ vs) = record v { queued = v.queued && not (p v) } ∷ expire p vs

unfoldable pub drop_expired_vouchers : ℕ → World → World
unfolding expire release
drop_expired_vouchers now w =
    release (record w { vouchers = expire (λ v. leb v.expiry now) w.vouchers })

unfoldable pub drop_all_vouchers : World → World
unfolding expire release
drop_all_vouchers w = release (record w { vouchers = expire (λ v. true) w.vouchers })

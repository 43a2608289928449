-- ===== src/Session/Release.antt =====
-- daemon/session.hpp, daemon/repository.hpp: `release` ends what nothing refers to any more, as the
-- last of the shared pointers does when a handler returns.
use partake.Prelude.{
  ℕ, Bool, false, ◌&&◌, not, Option, none, some, List, [], ◌∷◌, ◌++◌, ◌==◌, if◌then◌else◌,
}
use partake.Arena.{Arena, deallocate}
use partake.Object.{Handle, Object, is_set, is_empty}
use partake.Closing.{drop_voucher}
use partake.Session.{Voucher, World, update}

-- The end of the vouchers that are not in the queue.
unfoldable pub release_vouchers : List Voucher → World → World
release_vouchers [] w = w
release_vouchers (v ∷ vs) w =
    if v.queued
    then release_vouchers vs (record w { vouchers = w.vouchers ++ v ∷ [] })
    else release_vouchers vs (update v.target drop_voucher w)

abbrev pub is_idle : Handle → Bool
is_idle h = h.open_count == 0 && (is_empty h.pending_on_share && not (is_set h.pending_on_unique))

unfoldable pub keep_handles : List Handle → List Handle
keep_handles [] = []
keep_handles (h ∷ hs) = if is_idle h then keep_handles hs else h ∷ keep_handles hs

abbrev pub is_unused : Object → Bool
is_unused o = elim (keep_handles o.handles) [ [] ↦ o.n_vouchers == 0 | h ∷ hs ↦ false ]

-- The end of an allocation: its blocks go back to the arena.
abbrev pub deallocate_if : Option ℕ → Arena → Arena
deallocate_if none a = a
deallocate_if (some start) a = elim (deallocate a start) [ none ↦ a | some a' ↦ a' ]

unfoldable pub release_objects : List Object → Arena → List Object × Arena
release_objects [] a = ([], a)
release_objects (o ∷ os) a =
    let (os', a') = release_objects os a in
    if is_unused o
    then (os', deallocate_if o.resource a')
    else (record o { handles = keep_handles o.handles } ∷ os', a')

unfoldable pub release : World → World
unfolding release_vouchers release_objects
release w =
    let w' = release_vouchers w.vouchers (record w { vouchers = [] }) in
    let (os, a) = release_objects w'.objects w'.arena in record w' { objects = os; arena = a }

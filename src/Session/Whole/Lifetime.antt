-- ===== src/Session/Whole/Lifetime.antt =====
-- daemon/session.hpp, daemon/repository.hpp, daemon/voucher_queue.hpp: all objects of a daemon from
-- its start on.
use partake.Prelude.{ℕ, ◌^◌, ◌<◌, ◌≡◌, refl, some, none, List, [], ◌∷◌, leb, true}
use partake.Object.{Object, waits_share}
use partake.Session.{World, find_handle, find_target, hooked_handle}
use partake.Session.Lifetime.{FitCounts}
use partake.Session.Departure.{drop_expired_vouchers, drop_all_vouchers}
use partake.Session.Ledger.Lifetime.{
  new_world, Step, allocated, opened, closed, shared, unshared, voucher_created, voucher_discarded,
  requests_dropped, session_closed, vouchers_expired, vouchers_dropped, Run, started, stepped,
  Run-Balanced,
}
use partake.Session.Ledger.Released.{Balanced}
use partake.Session.Whole.{IsWhole}
use partake.Session.Whole.Handlers.{share_object-IsWhole, close-IsWhole, unshare-IsWhole}
use partake.Session.Whole.Opening.{open_request-IsWhole}
use partake.Session.Whole.Creating.{create_voucher-IsWhole, discard_voucher-IsWhole, alloc-IsWhole}
use partake.Session.Whole.Departure.{
  drop_session_requests-IsWhole, close_session-IsWhole, expired-IsWhole,
}

-- A session does not open an object again while its Open request for that object waits, nor by the
-- key of a voucher an object for which it has a handle.
abbrev IsPatient : {w w' : World} → Step w w' → Type 0
IsPatient {w} (opened s key policy wait now seqno) =
    ((o : Object) (i : ℕ)
      → find_handle s key w.objects ≡ some (o, i)
      → waits_share i o.handles ≡ [])
    × ((o : Object) (j : ℕ)
        → find_target key now w ≡ some (o, some j)
        → hooked_handle s o.handles ≡ none)
IsPatient _ = Unit {0}

abbrev pub FitAll : List Object → Type 0
FitAll [] = Unit {0}
FitAll (o ∷ os) = FitCounts o × FitAll os

pub data PatientRun (size : ℕ) : World → Type 0 where
  begun : PatientRun size (new_world size)
  continued :
      {w w' : World}
      → PatientRun size w
      → (s : Step w w') → IsPatient s
      → FitAll w'.objects
      → PatientRun size w'

PatientRun-Run : {size : ℕ} {w : World} → PatientRun size w → Run size w
PatientRun-Run begun = started
PatientRun-Run (continued r s p fit) = stepped (PatientRun-Run r) s

module _ (size : ℕ) (small : size < 2 ^ 64) where
  Step-IsWhole :
      {w w' : World} (s : Step w w') → IsPatient s → Balanced size w → IsWhole w → IsWhole w'
  unfolding drop_expired_vouchers drop_all_vouchers
  Step-IsWhole {w} (allocated shift s bytes policy) p b h =
      alloc-IsWhole size small shift s bytes policy w b h
  Step-IsWhole {w} (opened s key policy wait now seqno) p b h =
      open_request-IsWhole size small s key policy wait now seqno w p.0 p.1 b h
  Step-IsWhole {w} (closed s key) p b h = close-IsWhole size small s key w b h
  Step-IsWhole {w} (shared s key) p b h = share_object-IsWhole size small s key w b h
  Step-IsWhole {w} (unshared s key wait seqno) p b h =
      unshare-IsWhole size small s key wait seqno w b h
  Step-IsWhole {w} (voucher_created s target count now ttl) p b h =
      create_voucher-IsWhole size small s target count now ttl w b h
  Step-IsWhole {w} (voucher_discarded key now) p b h =
      discard_voucher-IsWhole size small key now w b h
  Step-IsWhole {w} (requests_dropped s) p b h = drop_session_requests-IsWhole size small s w b h
  Step-IsWhole {w} (session_closed s) p b h = close_session-IsWhole size small s w b h
  Step-IsWhole {w} (vouchers_expired now) p b h =
      expired-IsWhole size small (λ v. leb v.expiry now) w b h
  Step-IsWhole {w} vouchers_dropped p b h = expired-IsWhole size small (λ v. true) w b h

-- From the start of a daemon with fewer than 2 ^ 64 blocks of memory on, through any requests of
-- any sessions, their ends and the expiry of vouchers, no assertion of an object or a handle fails,
-- no session makes a second handle for an object, and every object stays valid. The conditions, that
-- the handlers do not check: no session opens an object again while its Open request for it waits,
-- nor by the key of a voucher an object for which it has a handle; and all counts stay below 2 ^ 32.
-- The assertions that a session which ends has no handle left are not among those that are shown.
pub PatientRun-IsWhole : (size : ℕ) {w : World} → size < 2 ^ 64 → PatientRun size w → IsWhole w
PatientRun-IsWhole size small begun = record { sound = refl; objects = tt }
PatientRun-IsWhole size small (continued r s p fit) =
    Step-IsWhole size small s p (Run-Balanced size small (PatientRun-Run r))
      (PatientRun-IsWhole size small r)

-- ===== src/Daemon/Shutdown.antt =====
-- The events of a daemon that runs, and its shutdown.
use partake.Prelude.{ℕ, ◌≡◌, ◌≤◌, ◌<◌, Bool, true, false, [], arith, hit}
use partake.Session.{World}
use partake.Session.Expired.{vouchers-drop_all}
use partake.Daemon.{
  Daemon, start, quit, close, on_accept, on_signal, connect, end_client, prepare_all,
  close_sessions,
}

-- A daemon that was made and not yet started.
pub record IsNew (d : Daemon) : Type 0 where
  pub idle : d.acceptor.accepting ≡ 0
  pub unset : d.acceptor.has_handlers ≡ false
  pub unclosed : d.acceptor.closing ≡ false
  pub deaf : d.waiting_for_signal ≡ false
  pub alone : d.clients ≡ []
  pub running : d.n_quits ≡ 0

-- A signal comes while the daemon waits for one, a connection is accepted while the socket listens,
-- an accept operation completes while one is in progress, and clients make requests and end.
pub data Reach (d : Daemon) : Daemon → Type 0 where
  started : (a b c : Bool) → Reach d (start a b c d)
  signalled : {e : Daemon} → Reach d e → e.waiting_for_signal ≡ true → Reach d (on_signal e)
  connected :
      {e : Daemon}
      → Reach d e
      → 0 < e.acceptor.accepting
      → e.acceptor.is_open ≡ true
      → Reach d (connect e)
  accepted :
      {e : Daemon} → Reach d e → (err : Bool) → 0 < e.acceptor.accepting → Reach d (on_accept err e)
  served : {e : Daemon} → Reach d e → (w : World) → Reach d (record e { world = w })
  ended : {e : Daemon} → Reach d e → (s : ℕ) → Reach d (end_client s e)

-- What holds between any two events.
record Holds (e : Daemon) : Type 0 where
  counted : e.n_quits ≡ hit e.acceptor.closing
  started_first : e.acceptor.closing ≡ true → e.acceptor.has_handlers ≡ true
  one : e.acceptor.accepting ≤ 1
  accepts : 0 < e.acceptor.accepting → e.acceptor.has_handlers ≡ true
  waits :
      e.waiting_for_signal ≡ true → (e.acceptor.has_handlers ≡ true) × (e.acceptor.closing ≡ false)
  gone :
      e.acceptor.closing ≡ true
      → (e.acceptor.bound ≡ false)
        × (e.acceptor.is_open ≡ false)
        × (e.acceptor.next_sock_is_open ≡ false)
  alive :
      e.acceptor.has_handlers ≡ true
      → e.acceptor.closing ≡ false
      → (e.waiting_for_signal ≡ true) × (e.acceptor.accepting ≡ 1)

start-Holds : (d : Daemon) (a b c : Bool) → IsNew d → Holds (start a b c d)
unfolding start
start-Holds d a b c n = ground arith

signal-Holds : (e : Daemon) → Holds e → e.waiting_for_signal ≡ true → Holds (on_signal e)
unfolding on_signal
signal-Holds e h w = ground arith

connect-Holds : (e : Daemon) → Holds e → e.acceptor.is_open ≡ true → Holds (connect e)
unfolding connect
connect-Holds e h o = ground arith

accept-Holds :
    (e : Daemon) (err : Bool) → Holds e → 0 < e.acceptor.accepting → Holds (on_accept err e)
unfolding on_accept
accept-Holds e true h w = ground arith
accept-Holds e false h w = ground arith

end-Holds : (e : Daemon) (s : ℕ) → Holds e → Holds (end_client s e)
unfolding end_client
end-Holds e s h = ground arith

serve-Holds : (e : Daemon) (w : World) → Holds e → Holds (record e { world = w })
serve-Holds e w h = ground arith

Reach-Holds : {d e : Daemon} → IsNew d → Reach d e → Holds e
Reach-Holds {d} n (started a b c) = start-Holds d a b c n
Reach-Holds n (signalled {e} r w) = signal-Holds e (Reach-Holds n r) w
Reach-Holds n (connected {e} r w o) = connect-Holds e (Reach-Holds n r) o
Reach-Holds n (accepted {e} r err w) = accept-Holds e err (Reach-Holds n r) w
Reach-Holds n (served {e} r w) = serve-Holds e w (Reach-Holds n r)
Reach-Holds n (ended {e} r s) = end-Holds e s (Reach-Holds n r)

-- Whatever happens to the daemon, `quit` is called once when the acceptor is closed, and else not;
-- at most one accept operation is in progress. Once it listens and until it is closed, one is, and
-- a signal is waited for; after that neither the socket nor its name is left, nor an open connection
-- that no handler took.
pub Reach-quits :
    {d e : Daemon}
    → IsNew d
    → Reach d e
    → (e.n_quits ≡ hit e.acceptor.closing)
      × (e.acceptor.accepting ≤ 1)
      × (e.acceptor.has_handlers ≡ true
          → e.acceptor.closing ≡ false
          → (e.waiting_for_signal ≡ true) × (e.acceptor.accepting ≡ 1))
      × (e.acceptor.closing ≡ true
          → (e.acceptor.bound ≡ false)
            × (e.acceptor.is_open ≡ false)
            × (e.acceptor.next_sock_is_open ≡ false))
Reach-quits n r = let h = Reach-Holds n r in (h.counted, h.one, h.alive, h.gone)

close_again : (e : Daemon) → e.acceptor.closing ≡ true → close e ≡ e
unfolding close
close_again e c = ground (arith, c)

closing-close : (e : Daemon) → (close e).acceptor.closing ≡ true
unfolding close quit
closing-close e = ground arith

-- Closing a daemon that listens ends all clients and all vouchers; and when it is closed again,
-- nothing more happens.
close_ended :
    (e : Daemon)
    → e.acceptor.has_handlers ≡ true
    → e.acceptor.closing ≡ false
    → ((close e).clients ≡ []) × ((close e).world.vouchers ≡ []) × (close (close e) ≡ close e)
unfolding close quit
close_ended e h c = (
  ground arith,
  ground (arith, vouchers-drop_all (close_sessions e.clients (prepare_all e.clients e.world))),
  close_again (close e) (closing-close e),
)

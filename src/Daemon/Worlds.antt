-- ===== src/Daemon/Worlds.antt =====
-- daemon/daemon.hpp: the objects, vouchers and memory of a daemon, from its constructor to `quit`, are
-- those of a run of requests.
use partake.Prelude.{ℕ, ◌/◌, ◌^◌, List, [], ◌∷◌}
use partake.Allocator.{allocator}
use partake.Session.{World}
use partake.Session.Ledger.Lifetime.{
  Run, started, stepped, requests_dropped, session_closed, vouchers_dropped,
}
use partake.System.{Text, Log, Host}
use partake.Segment.{segment_size}
use partake.Cli.Config.{DaemonConfig}
use partake.Daemon.{Daemon, make_daemon, prepare_all, close_sessions, quit}

-- A daemon that is made starts with no objects, and with the blocks of its segment.
make_daemon-Run :
    (h : Host) (left : Text → Text) (config : DaemonConfig) (l : Log)
    → (let (d, l') = make_daemon h left config l in
        Run (segment_size d.seg / 2 ^ d.log2_granularity) d.world)
unfolding make_daemon allocator
make_daemon-Run h left config l = started

module _ (size : ℕ) where
  prepare_all-Run : (ss : List ℕ) (w : World) → Run size w → Run size (prepare_all ss w)
  unfolding prepare_all
  prepare_all-Run [] w r = r
  prepare_all-Run (s ∷ ss) w r = prepare_all-Run ss _ (stepped r (requests_dropped s))

  close_sessions-Run : (ss : List ℕ) (w : World) → Run size w → Run size (close_sessions ss w)
  unfolding close_sessions
  close_sessions-Run [] w r = r
  close_sessions-Run (s ∷ ss) w r = close_sessions-Run ss _ (stepped r (session_closed s))

  -- Quitting is a run of steps, too.
  quit-Run : (d : Daemon) → Run size d.world → Run size (quit d).world
  unfolding quit
  quit-Run d r =
      stepped (close_sessions-Run d.clients _ (prepare_all-Run d.clients d.world r))
        vouchers_dropped

-- ===== src/Daemon.antt =====
-- daemon/daemon.hpp, daemon/connection_acceptor.hpp and daemon/quitter.hpp: the daemon, from its
-- configuration to its shutdown. What asio does is a sequence of events: the handlers that it
-- calls, with the errors that it passes to them. A client is known by the number of its session.
pub mod Shutdown
pub mod Worlds
use partake.Prelude.{
  ℕ, ◌+◌, ◌-◌, ◌%◌, ◌^◌, Bool, true, false, ◌&&◌, ◌||◌, not, Option, none, some, List, [], ◌∷◌,
  ◌==◌, if◌then◌else◌,
}
use partake.Allocator.{allocator}
use partake.KeySequence.{initial}
use partake.Session.{World}
use partake.Session.Departure.{drop_session_requests, close_session, drop_all_vouchers}
use partake.System.{Text, Host, M, ◌>>=◌, pure}
use partake.Segment.{
  Method, posix_mmap, file_mmap, sysv, win32, SegmentConfig, Segment, make_segment, is_valid,
  segment_size,
}
use partake.Cli.Config.{DaemonConfig, log2_of}

-- `connection_acceptor`: whether the listening socket is open and bound (so that its name is to be
-- unlinked), whether `next_sock` is open, which holds a connection that was accepted until the
-- handler takes it, how many accept operations are in progress, and whether the handlers are set.
pub record Acceptor : Type 0 where
  pub is_open : Bool
  pub bound : Bool
  pub next_sock_is_open : Bool
  pub accepting : ℕ
  pub has_handlers : Bool
  pub closing : Bool

-- `partake_daemon`. `waiting_for_signal` is the state of the quitter; `n_quits` counts the calls of
-- `quit`.
pub record Daemon : Type 0 where
  cfg : DaemonConfig
  pub seg : Segment
  pub log2_granularity : ℕ
  pub world : World
  pub acceptor : Acceptor
  pub waiting_for_signal : Bool
  pub clients : List ℕ
  session_counter : ℕ
  pub n_quits : ℕ
  pub exitcode : ℕ

-- What `std::move` leaves of a configuration, where `left` says what it leaves of a string.
abbrev pub moved_method : (Text → Text) → Method → Method
moved_method left (posix_mmap name force) = posix_mmap (left name) force
moved_method left (file_mmap filename force) = file_mmap (left filename) force
moved_method left (sysv key force use_huge_pages huge_page_size) =
    sysv key force use_huge_pages huge_page_size
moved_method left (win32 filename name force use_large_pages) =
    win32 (left filename) (left name) force use_large_pages

abbrev pub moved : (Text → Text) → SegmentConfig → SegmentConfig
moved left config = record config { method = moved_method left config.method }

abbrev new_acceptor : Acceptor
new_acceptor = record {
  is_open = false;
  bound = false;
  next_sock_is_open = false;
  accepting = 0;
  has_handlers = false;
  closing = false;
}

abbrev granularity_for : Host → DaemonConfig → ℕ
granularity_for h config =
    if config.log2_granularity == 0 then log2_of h.page_size else config.log2_granularity

-- The constructor. `cfg` is made first, by moving from `config`, which the segment is made of next.
unfoldable pub make_daemon : Host → (Text → Text) → DaemonConfig → M Daemon
unfolding allocator
make_daemon h left config = do
  s ← make_segment h (moved left config.seg_config)
  pure (record {
    cfg = config;
    seg = s;
    log2_granularity = granularity_for h config;
    world = record {
      objects = [];
      vouchers = [];
      env = record { prev_key = initial; sent = []; fault = false };
      arena = allocator (segment_size s) (granularity_for h config);
    };
    acceptor = new_acceptor;
    waiting_for_signal = false;
    clients = [];
    session_counter = 0;
    n_quits = 0;
    exitcode = if is_valid s then 0 else 1;
  })

-- `acceptor.start`, with the errors of its three steps, and whether it succeeds.
abbrev listen : Bool → Bool → Bool → Acceptor → Bool × Acceptor
listen open_err bind_err listen_err a =
    if open_err
    then (false, a)
    else if bind_err
    then (false, record a { is_open = true })
    else if listen_err
    then (false, record a { is_open = true; bound = true })
    else (
      true,
      record a { is_open = true; bound = true; has_handlers = true; accepting = a.accepting + 1 },
    )

unfoldable pub start : Bool → Bool → Bool → Daemon → Daemon
start open_err bind_err listen_err d =
    if not (d.exitcode == 0)
    then d
    else (let (ok, a) = listen open_err bind_err listen_err d.acceptor in
        if ok
        then record d { acceptor = a; waiting_for_signal = true }
        else record d { acceptor = a; exitcode = 1 })

-- The clients' sessions one by one: `prepare_for_shutdown`, and the end of the clients.
unfoldable pub prepare_all : List ℕ → World → World
prepare_all [] w = w
prepare_all (s ∷ ss) w = prepare_all ss (drop_session_requests s w)

unfoldable pub close_sessions : List ℕ → World → World
close_sessions [] w = w
close_sessions (s ∷ ss) w = close_sessions ss (close_session s w)

-- `quit`: the signal handler is cancelled, and the clients and vouchers end.
unfoldable pub quit : Daemon → Daemon
unfolding prepare_all close_sessions
quit d =
    let w = close_sessions d.clients (prepare_all d.clients d.world) in
    record d {
      waiting_for_signal = false;
      clients = [];
      world = drop_all_vouchers w;
      n_quits = d.n_quits + 1;
    }

-- `connection_acceptor::close`
unfoldable pub close : Daemon → Daemon
unfolding quit
close d =
    if d.acceptor.closing
    then d
    else (let d' = record d {
      acceptor = record d.acceptor {
        closing = true;
        bound = false;
        is_open = false;
        next_sock_is_open = false;
      };
    } in
        if d.acceptor.has_handlers then quit d' else d')

-- `start_client`: the new session has the next number.
unfoldable pub start_client : Daemon → Daemon
start_client d = record d {
  clients = d.session_counter ∷ d.clients;
  session_counter = (d.session_counter + 1) % 2 ^ 32;
}

-- A connection is accepted into `next_sock`; the handler runs later.
unfoldable pub connect : Daemon → Daemon
connect d = record d { acceptor = record d.acceptor { next_sock_is_open = true } }

-- The completion of an accept operation, with an error or a connection, which the client takes.
unfoldable pub on_accept : Bool → Daemon → Daemon
unfolding close start_client
on_accept err d =
    let d' = record d { acceptor = record d.acceptor { accepting = d.acceptor.accepting - 1 } } in
    if err
    then (if d.acceptor.closing then d' else close d')
    else (let d'' = start_client d' in
        record d'' {
          acceptor = record d''.acceptor {
            next_sock_is_open = false;
            accepting = d''.acceptor.accepting + 1;
          };
        })

-- The handler of a signal. It is not set again.
unfoldable pub on_signal : Daemon → Daemon
unfolding close
on_signal d = close (record d { waiting_for_signal = false })

abbrev without : ℕ → List ℕ → List ℕ
without s [] = []
without s (t ∷ ts) = if s == t then ts else t ∷ without s ts

-- A client that closed itself is erased, and its session ends.
unfoldable pub end_client : ℕ → Daemon → Daemon
end_client s d = record d { clients = without s d.clients; world = close_session s d.world }

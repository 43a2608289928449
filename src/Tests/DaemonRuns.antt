-- ===== src/Tests/DaemonRuns.antt =====
-- The daemon on small inputs.
use partake.Prelude.{◌≡◌, ◌≤◌, refl, true, false, [], hit}
use partake.Sizes.{round_up_or_check_size}
use partake.System.{Text}
use partake.Shmem.Mmap.{create_posix_mmap_shmem, create_posix_shmem, mmap_mapping}
use partake.Segment.{is_valid, make_segment}
use partake.Daemon.{Daemon, make_daemon, start, on_signal}
use partake.Daemon.Shutdown.{IsNew, started, signalled, Reach-quits}
use partake.Tests.SegmentRuns.{h, accepted_config}

abbrev left : Text → Text
left s = []

abbrev daemon : Daemon
daemon = (make_daemon h left accepted_config []).0

daemon-IsNew : IsNew daemon
unfolding make_daemon
daemon-IsNew = record {
  idle = refl;
  unset = refl;
  unclosed = refl;
  deaf = refl;
  alone = refl;
  running = refl;
}

abbrev listening : Daemon
listening = start false false false daemon

waits : listening.waiting_for_signal ≡ true
unfolding start make_daemon make_segment is_valid create_posix_mmap_shmem create_posix_shmem
    round_up_or_check_size mmap_mapping
waits = refl

abbrev stopped : Daemon
stopped = on_signal listening

Reach-quits_example :
    (stopped.n_quits ≡ hit stopped.acceptor.closing)
    × (stopped.acceptor.accepting ≤ 1)
    × (stopped.acceptor.has_handlers ≡ true
        → stopped.acceptor.closing ≡ false
        → (stopped.waiting_for_signal ≡ true) × (stopped.acceptor.accepting ≡ 1))
    × (stopped.acceptor.closing ≡ true
        → (stopped.acceptor.bound ≡ false)
          × (stopped.acceptor.is_open ≡ false)
          × (stopped.acceptor.next_sock_is_open ≡ false))
Reach-quits_example = Reach-quits daemon-IsNew (signalled (started false false false) waits)

-- ===== src/Tests/LedgerRuns.antt =====
-- daemon/session.hpp, daemon/repository.hpp: a daemon that serves a few requests.
use partake.Prelude.{◌<◌, ℕ, ◌≡◌, refl, true, false, none, some, [], ◌∷◌, arith}
use partake.KeySequence.{initial, generate}
use partake.SizeClass.{
  free_list_index_for_size, countl_zero, countl_zero_software_nonzero, clz_loop,
}
use partake.Arena.{at_list_for, arena, allocate, allocate_count, scan_lists, scan}
use partake.Arena.Counts.{count_used}
use partake.Arena.Invariant.{AreApart}
use partake.Allocator.{allocate_bytes, blocks_for}
use partake.Protocol.{default}
use partake.Object.{Object, opens, handle_open, set_opens}
use partake.Closing.{
  set_exclusive_writer, handle_close, object_close, close_unique, close_writer, drain,
}
use partake.Session.Ledger.Released.{Balanced}
use partake.Session.{
  World, create_handle, fresh, update, at_object, hooked_handle, object_at, find_handle,
}
use partake.Session.Release.{release, release_vouchers, release_objects, keep_handles}
use partake.Session.Requests.{
  alloc, take_resource, create_object, first_handle, close, free_address,
}
use partake.Session.Whole.{IsWhole}
use partake.Session.Whole.Lifetime.{FitAll, PatientRun, begun, continued, PatientRun-IsWhole}
use partake.Session.Ledger.Lifetime.{
  new_world, Run, started, stepped, allocated, closed, memory_returned, Run-Balanced,
}
use partake.Session.Ledger.Memory.{memory_apart}

abbrev two_objects : World
two_objects = (alloc 12 1 100 default (alloc 12 1 5000 default (new_world 10)).1).1

two_objects-Run : Run 10 two_objects
two_objects-Run =
    stepped (stepped started (allocated 12 1 5000 default)) (allocated 12 1 100 default)

abbrev held_object : ℕ → ℕ → ℕ → Object
held_object address key start = record {
  address = address;
  key = key;
  policy = default;
  resource = some start;
  shared = false;
  n_open_handles = 1;
  n_vouchers = 0;
  exc_writer = some 0;
  awaiting_share = [];
  awaiting_unique = none;
  handles =
      record {
        id = 0;
        session = 1;
        hooked = true;
        open_count = 1;
        pending_on_share = [];
        pending_on_unique = none;
      }
      ∷ [];
}

first_there : object_at 0 two_objects.objects ≡ some (held_object 0 (generate initial) 0)
unfolding arena allocate_bytes blocks_for allocate allocate_count scan_lists scan
    free_list_index_for_size countl_zero countl_zero_software_nonzero clz_loop alloc take_resource
    create_object first_handle create_handle fresh handle_open set_opens opens set_exclusive_writer
    free_address update at_object hooked_handle object_at release release_vouchers release_objects
    keep_handles
first_there = refl

second_there :
    object_at 1 two_objects.objects ≡ some (held_object 1 (generate (generate initial)) 2)
unfolding generate arena at_list_for allocate_bytes blocks_for allocate allocate_count scan_lists
    scan free_list_index_for_size countl_zero countl_zero_software_nonzero clz_loop alloc
    take_resource create_object first_handle create_handle fresh handle_open set_opens opens
    set_exclusive_writer free_address update at_object hooked_handle object_at release
    release_vouchers release_objects keep_handles
second_there = refl

Run-Balanced_example : Balanced 10 two_objects
Run-Balanced_example = Run-Balanced 10 (omega arith) two_objects-Run

one_fits : FitAll (alloc 12 1 5000 default (new_world 10)).1.objects
unfolding generate arena allocate_bytes blocks_for allocate allocate_count scan_lists scan
    free_list_index_for_size countl_zero countl_zero_software_nonzero clz_loop alloc take_resource
    create_object first_handle create_handle fresh handle_open set_opens opens set_exclusive_writer
    free_address update at_object hooked_handle object_at release release_vouchers release_objects
    keep_handles
one_fits = ((omega arith, omega arith, (omega arith, tt)), tt)

two_fit : FitAll two_objects.objects
unfolding generate arena at_list_for allocate_bytes blocks_for allocate allocate_count scan_lists
    scan free_list_index_for_size countl_zero countl_zero_software_nonzero clz_loop alloc
    take_resource create_object first_handle create_handle fresh handle_open set_opens opens
    set_exclusive_writer free_address update at_object hooked_handle object_at release
    release_vouchers release_objects keep_handles
two_fit = (
  (omega arith, omega arith, (omega arith, tt)),
  ((omega arith, omega arith, (omega arith, tt)), tt),
)

two_objects-PatientRun : PatientRun 10 two_objects
two_objects-PatientRun =
    continued (continued begun (allocated 12 1 5000 default) tt one_fits)
      (allocated 12 1 100 default) tt two_fit

PatientRun-IsWhole_example : IsWhole two_objects
PatientRun-IsWhole_example = PatientRun-IsWhole 10 (omega arith) two_objects-PatientRun

memory_apart_example :
    (n : ℕ) × (m : ℕ) × (0 < n)
    × (0 < m)
    × (count_used 0 n two_objects.arena.chunks ≡ 1)
    × (count_used 2 m two_objects.arena.chunks ≡ 1)
    × AreApart 0 n 2 m
memory_apart_example =
    memory_apart 10 0 1 0 2 (held_object 0 (generate initial) 0)
      (held_object 1 (generate (generate initial)) 2) (omega arith) two_objects-Run (omega arith)
      first_there second_there refl refl

abbrev closed_world : World
closed_world = (close 1 (generate initial) (alloc 12 1 5000 default (new_world 10)).1).1

none_left : closed_world.objects ≡ []
unfolding generate arena allocate_bytes blocks_for allocate allocate_count scan_lists scan
    free_list_index_for_size countl_zero countl_zero_software_nonzero clz_loop alloc take_resource
    create_object first_handle create_handle fresh handle_open set_opens opens set_exclusive_writer
    free_address update at_object hooked_handle object_at release release_vouchers release_objects
    keep_handles close find_handle handle_close object_close close_unique close_writer drain
none_left = refl

memory_returned_example : closed_world.arena.chunks ≡ (arena 10).chunks
memory_returned_example =
    memory_returned 10 (omega arith)
      (stepped (stepped started (allocated 12 1 5000 default)) (closed 1 (generate initial)))
      none_left

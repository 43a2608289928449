-- ===== src/Tests/ArenaRuns.antt =====
-- daemon/allocator.hpp: an arena of ten blocks, from which three and then two are taken.
use partake.Prelude.{ℕ, ◌+◌, ◌*◌, ◌^◌, ◌≤◌, ◌<◌, ◌≡◌, refl, Option, none, some, [], ◌∷◌, arith, ◌⊎◌}
use partake.SizeClass.{
  clz_loop, countl_zero_software_nonzero, countl_zero, free_list_index_for_size,
  free_list_index_for_size_bounds,
}
use partake.Arena.{
  Arena, arena, erase, scan, scan_lists, at_list_for, carve, allocate_count, allocate, block_count,
  neighbours, relink, deallocate,
}
use partake.Arena.Counts.{count_used}
use partake.Arena.Invariant.{IsValid, AreApart}
use partake.Arena.Allocation.{Allocated, allocate-Allocated}
use partake.Arena.Deallocation.{Freed, deallocate-Freed}
use partake.Arena.Refinement.{Refines, Reach-Refines}
use partake.Arena.Lifetime.{arena-IsValid, Reach, fresh, took, gave, holds, held_apart}
use partake.Allocator.{offset, allocation_size, allocations_lem}

abbrev arena_of : Option (ℕ × Arena) → Arena
arena_of none = arena 0
arena_of (some (start, a)) = a

abbrev freed_of : Option Arena → Arena
freed_of none = arena 0
freed_of (some a) = a

abbrev a0 : Arena
a0 = arena 10

abbrev a1 : Arena
a1 = arena_of (allocate a0 3)

abbrev a2 : Arena
a2 = arena_of (allocate a1 2)

abbrev a3 : Arena
a3 = freed_of (deallocate a1 0)

small : 10 < 2 ^ 64
small = omega arith

take_three : allocate a0 3 ≡ some (0, a1)
unfolding arena allocate allocate_count scan_lists scan carve at_list_for free_list_index_for_size
    countl_zero countl_zero_software_nonzero clz_loop
take_three = refl

take_two : allocate a1 2 ≡ some (3, a2)
unfolding arena allocate allocate_count scan_lists scan carve at_list_for free_list_index_for_size
    countl_zero countl_zero_software_nonzero clz_loop
take_two = refl

give_three : deallocate a1 0 ≡ some a3
unfolding arena allocate allocate_count scan_lists scan carve at_list_for free_list_index_for_size
    countl_zero countl_zero_software_nonzero clz_loop deallocate neighbours relink erase
give_three = refl

reach_1 : Reach 10 a1 ((0, 3) ∷ [])
reach_1 = took 3 0 (fresh refl) take_three

reach_2 : Reach 10 a2 ((3, 2) ∷ (0, 3) ∷ [])
reach_2 = took 2 3 reach_1 take_two

reach_3 : Reach 10 a3 []
reach_3 = gave 0 3 reach_1 (omega arith) give_three

valid_1 : IsValid a1
valid_1 = (allocate-Allocated a0 3 0 a1 (arena-IsValid 10 small).0 take_three).after

held_apart_example :
    (3 + 2 ≤ 10)
    × (holds 3 2 ((3, 2) ∷ (0, 3) ∷ []) ≡ 1)
    × ((◌≡◌ {A = ℕ} 3 0 × ◌≡◌ {A = ℕ} 2 3) ⊎ AreApart 3 2 0 3)
held_apart_example = held_apart 10 small reach_2 3 2 0 3 (omega arith) (omega arith)

allocate-Allocated_example : Allocated a1 (block_count 2) 3 a2
allocate-Allocated_example = allocate-Allocated a1 2 3 a2 valid_1 take_two

Reach-Refines_example : Refines 10 ((3, 2) ∷ (0, 3) ∷ []) a2
Reach-Refines_example = Reach-Refines 10 small reach_2

used_three : 0 < count_used 0 3 a1.chunks
unfolding arena allocate allocate_count scan_lists scan carve at_list_for free_list_index_for_size
    countl_zero countl_zero_software_nonzero clz_loop
used_three = omega arith

deallocate-Freed_example : (a' : Arena) × (deallocate a1 0 ≡ some a') × Freed a1 0 3 a'
deallocate-Freed_example = deallocate-Freed a1 0 3 valid_1 (omega arith) used_three

free_list_index_for_size_bounds_example :
    (5 ≤ 2 ^ free_list_index_for_size 5) × (2 ^ free_list_index_for_size 5 < 2 * 5)
free_list_index_for_size_bounds_example =
    free_list_index_for_size_bounds 5 (omega arith) (omega arith)

allocations_lem_example :
    (offset 12 3 ≡ 3 * 2 ^ 12)
    × (allocation_size 12 2 ≡ 2 * 2 ^ 12)
    × (offset 12 3 + allocation_size 12 2 ≤ 40960)
    × ((◌≡◌ {A = ℕ} 3 0 × ◌≡◌ {A = ℕ} 2 3)
        ⊎ AreApart (offset 12 3) (allocation_size 12 2) (offset 12 0) (allocation_size 12 3))
allocations_lem_example =
    allocations_lem 40960 12 (omega arith) reach_2 3 2 0 3 (omega arith) (omega arith)

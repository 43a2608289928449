-- ===== src/Shmem/Mmap.antt =====
-- daemon/shmem_mmap.hpp and daemon/shmem_mmap.cpp: shared memory from `shm_open` or a file, mapped
-- with `mmap`. A pointer is its address, and MAP_FAILED is -1 on 64 bits.
pub mod Lifetime
use partake.Prelude.{
  ℕ, ◌≡◌, ◌==◌, ◌+◌, Bool, true, false, not, Option, none, some, List, [], ◌∷◌, ◌++◌, hit, ◌&&◌,
  if◌then◌else◌, arith, refl,
}
use partake.Sizes.{round_up_or_check_size}
use partake.System.{Text, Call, Answer, Log, Host, M, ◌>>=◌, ◌>>◌, pure, invoke, succeeded}
use partake.System.Balance.{map_failed}
use partake.Random.{random_string}
use partake.PageSize.{file_page_size}
use partake.Shmem.{
  FileDescriptor, close, Unlinkable, UnlinkFn, with_shm_unlink, with_unlink, unlink,
}

-- What `create_posix_shmem` and `create_regular_file` return.
pub record Opened : Type 0 where
  pub ent : Unlinkable
  pub fd : FileDescriptor

abbrev not_opened : Opened
not_opened = record { ent = record { nm = []; unlink_fn = with_unlink }; fd = none }

abbrev pub opened : UnlinkFn → Text → Answer → Opened
opened f name a = elim a.value [
  | none ↦ not_opened
  | some d ↦ record { ent = record { nm = name; unlink_fn = f }; fd = some d }
]

-- On macOS an older object of the name is unlinked first.
abbrev remove_older : Host → Text → Bool → M Bool
remove_older h name force =
    if h.apple && force
    then (do a ← invoke h (Call.shm_unlink name); pure (succeeded a))
    else pure true

unfoldable pub create_posix_shmem : Host → Text → Bool → M Opened
create_posix_shmem h name force = do
  remove_older h name force
  a ← invoke h (Call.shm_open name (not force))
  pure (opened with_shm_unlink name a)

unfoldable pub create_regular_file : Host → Text → Bool → M Opened
create_regular_file h path force = do
  a ← invoke h (Call.open_file path (not force))
  pure (opened with_unlink path a)

-- `mmap_mapping`. The null pointer is 0.
pub record Mapping : Type 0 where
  pub siz : ℕ
  pub addr : ℕ

abbrev pub no_mapping : Mapping
no_mapping = record { siz = 0; addr = 0 }

abbrev pub mapping_is_valid : Mapping → Bool
mapping_is_valid m = not (m.addr == 0)

abbrev pub pointer : Answer → ℕ
pointer a = elim a.value [ none ↦ map_failed | some p ↦ p ]

-- The constructor, on a descriptor that is valid.
abbrev map_descriptor : Host → ℕ → ℕ → M Mapping
map_descriptor h size d = do
  a ← invoke h (Call.ftruncate d size)
  if not (succeeded a)
      then pure (record { siz = size; addr = 0 })
      else if size == 0
      then pure (record { siz = size; addr = 0 })
      else (do b ← invoke h (Call.mmap d size); pure (record { siz = size; addr = pointer b }))

unfoldable pub mmap_mapping : Host → ℕ → FileDescriptor → M Mapping
mmap_mapping h size none = pure (record { siz = size; addr = 0 })
mmap_mapping h size (some d) = map_descriptor h size d

-- The result, and the mapping after it.
unfoldable pub unmap : Host → Mapping → M (Bool × Mapping)
unmap h m =
    if m.addr == 0
    then pure (true, m)
    else (do a ← invoke h (Call.munmap m.addr m.siz); pure (succeeded a, no_mapping))

-- `this` and `rhs` after `operator=`.
unfoldable move_assign : Host → Mapping → Mapping → M (Mapping × Mapping)
unfolding unmap
move_assign h this rhs = do unmap h this; pure (rhs, no_mapping)

-- The new mapping and `other` after the move constructor, which assigns `{}` to `other`.
unfoldable pub move_construct : Host → Mapping → M (Mapping × Mapping)
unfolding move_assign
move_construct h other = do r ← move_assign h other no_mapping; pure (other, r.0)

pub record MmapShmem : Type 0 where
  pub ent : Unlinkable
  pub mapped : Mapping

abbrev pub no_shmem : MmapShmem
no_shmem = record { ent = not_opened.ent; mapped = no_mapping }

-- The constructor, and the end of the descriptor.
abbrev mmap_shmem : Host → Opened → ℕ → M MmapShmem
mmap_shmem h o size = do
  m ← mmap_mapping h size o.fd
  close h o.fd
  pure (record { ent = o.ent; mapped = m })

-- The end of what was opened, the descriptor first.
abbrev pub abandon : Host → Opened → M MmapShmem
abandon h o = do close h o.fd; unlink h o.ent; pure no_shmem

abbrev pub rounded : Host → Opened → Option ℕ → M MmapShmem
rounded h o none = abandon h o
rounded h o (some size) = mmap_shmem h o size

unfoldable pub create_posix_mmap_shmem : Host → Text → ℕ → Bool → M MmapShmem
unfolding create_posix_shmem close unlink mmap_mapping
create_posix_mmap_shmem h name size force = do
  o ← create_posix_shmem h name force
  rounded h o (round_up_or_check_size size h.page_size)

unfoldable pub create_file_mmap_shmem : Host → Text → ℕ → Bool → M MmapShmem
unfolding create_regular_file close unlink mmap_mapping
create_file_mmap_shmem h name size force = do
  o ← create_regular_file h name force
  rounded h o (round_up_or_check_size size (if h.linux then file_page_size h o.fd else h.page_size))

-- "/partake-", with 22 random characters.
abbrev posix_prefix : Text
posix_prefix = 47 ∷ 112 ∷ 97 ∷ 114 ∷ 116 ∷ 97 ∷ 107 ∷ 101 ∷ 45 ∷ []

unfoldable pub generate_posix_shmem_name : Host → Text
generate_posix_shmem_name h = posix_prefix ++ random_string h 22

abbrev file_prefix : Text
file_prefix = 47 ∷ 112 ∷ 97 ∷ 114 ∷ 116 ∷ 97 ∷ 107 ∷ 101 ∷ 45 ∷ []

-- In the directory for temporary files, after a slash.
unfoldable pub generate_filename : Host → Text
generate_filename h = h.temp_directory ++ (file_prefix ++ random_string h 24)

-- The destructor: the members end in reverse order.
unfoldable pub end_mmap_shmem : Host → MmapShmem → M Bool
unfolding unmap unlink
end_mmap_shmem h s = do unmap h s.mapped; unlink h s.ent

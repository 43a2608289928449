-- ===== src/Segment.antt =====
-- daemon/segment.hpp and daemon/segment.cpp: the segment, by the kind of shared memory that it is
-- made of. `windows` of the host says which kinds the program is built with.
pub mod Lifetime
pub mod Size
pub mod Failures
use partake.Prelude.{ℕ, ◌==◌, Bool, true, false, Option, none, some, List, [], ◌∷◌, if◌then◌else◌}
use partake.System.{Text, ℤ, pos, negsuc, Host, M, ◌>>=◌, pure}
use partake.Shmem.Mmap.{
  MmapShmem, no_shmem, mapping_is_valid, create_posix_mmap_shmem, create_file_mmap_shmem,
  generate_posix_shmem_name, generate_filename, end_mmap_shmem,
}
use partake.Shmem.Sysv.{SysvShmem, is_private, sysv_is_valid, create_sysv_shmem, end_sysv_shmem}
use partake.Shmem.Win32.{
  Win32Shmem, no_win32_shmem, win32_is_valid, create_win32_shmem, create_win32_file_shmem,
  generate_win32_file_mapping_name, end_win32_shmem,
}

-- The configurations, with their fields in the order of the source.
pub data Method : Type 0 where
  posix_mmap : Text → Bool → Method
  file_mmap : Text → Bool → Method
  sysv : ℤ → Bool → Bool → ℕ → Method
  win32 : Text → Text → Bool → Bool → Method

pub record SegmentConfig : Type 0 where
  pub method : Method
  pub size : ℕ

-- What clients are told.
pub data Spec : Type 0 where
  posix_mmap_spec : Text → Spec
  file_mmap_spec : Text → Spec
  sysv_spec : Option ℕ → Spec
  win32_spec : Text → Bool → Spec

-- The classes of segments.
pub data Segment : Type 0 where
  unsupported_segment : ℕ → Segment
  posix_mmap_segment : MmapShmem → Segment
  file_mmap_segment : MmapShmem → Segment
  sysv_segment : SysvShmem → Segment
  win32_segment : Text → Win32Shmem → Bool → Segment

-- The name of a POSIX segment.
abbrev pub name_or_generated : Host → Text → Text
name_or_generated h [] = generate_posix_shmem_name h
name_or_generated h (c ∷ name) = c ∷ name

abbrev pub forced : Text → Bool → Bool
forced [] force = false
forced (c ∷ name) force = force

abbrev make_posix_mmap : Host → Text → Bool → ℕ → M MmapShmem
make_posix_mmap h name force size =
    create_posix_mmap_shmem h (name_or_generated h name) size (forced name force)

abbrev pub at_canonical : Host → Option Text → Bool → ℕ → M MmapShmem
at_canonical h none force size = pure no_shmem
at_canonical h (some canon) force size = create_file_mmap_shmem h canon size force

abbrev pub make_file_mmap : Host → Text → Bool → ℕ → M MmapShmem
make_file_mmap h [] force size = create_file_mmap_shmem h (generate_filename h) size false
make_file_mmap h (c ∷ filename) force size = at_canonical h (h.canonical (c ∷ filename)) force size

abbrev pub make_sysv : Host → ℤ → Bool → Bool → ℕ → ℕ → M SysvShmem
make_sysv h key force use_huge_pages huge_page_size size =
    if is_private key
    then create_sysv_shmem h (pos 0) size false use_huge_pages huge_page_size
    else create_sysv_shmem h key size force use_huge_pages huge_page_size

abbrev pub mapping_name : Host → Text → Text
mapping_name h [] = generate_win32_file_mapping_name h
mapping_name h (c ∷ name) = c ∷ name

abbrev pub at_canonical_path : Host → Option Text → Text → Bool → Bool → ℕ → M Win32Shmem
at_canonical_path h none name force use_large_pages size = pure no_win32_shmem
at_canonical_path h (some canon) name force use_large_pages size =
    create_win32_file_shmem h canon name size force use_large_pages

abbrev pub make_win32 : Host → Text → Text → Bool → Bool → ℕ → M Win32Shmem
make_win32 h [] name force use_large_pages size = create_win32_shmem h name size use_large_pages
make_win32 h (c ∷ filename) name force use_large_pages size =
    at_canonical_path h (h.canonical (c ∷ filename)) name force use_large_pages size

-- What `std::visit` calls, on Windows or elsewhere.
abbrev pub make_method : Host → Bool → Method → ℕ → M Segment
make_method h true (posix_mmap name force) size = pure (unsupported_segment size)
make_method h true (file_mmap filename force) size = pure (unsupported_segment size)
make_method h true (sysv key force use_huge_pages huge_page_size) size =
    pure (unsupported_segment size)
make_method h true (win32 filename name force use_large_pages) size = do
  s ← make_win32 h filename (mapping_name h name) force use_large_pages size
  pure (win32_segment (mapping_name h name) s use_large_pages)
make_method h false (posix_mmap name force) size = do
  s ← make_posix_mmap h name force size
  pure (posix_mmap_segment s)
make_method h false (file_mmap filename force) size = do
  s ← make_file_mmap h filename force size
  pure (file_mmap_segment s)
make_method h false (sysv key force use_huge_pages huge_page_size) size = do
  s ← make_sysv h key force use_huge_pages huge_page_size size
  pure (sysv_segment s)
make_method h false (win32 filename name force use_large_pages) size =
    pure (unsupported_segment size)

-- The constructor of `segment`.
unfoldable pub make_segment : Host → SegmentConfig → M Segment
make_segment h config = make_method h h.windows config.method config.size

unfoldable pub is_valid : Segment → Bool
is_valid (unsupported_segment siz) = false
is_valid (posix_mmap_segment s) = mapping_is_valid s.mapped
is_valid (file_mmap_segment s) = mapping_is_valid s.mapped
is_valid (sysv_segment s) = sysv_is_valid s
is_valid (win32_segment name s large) = win32_is_valid s

unfoldable pub segment_size : Segment → ℕ
segment_size (unsupported_segment siz) = siz
segment_size (posix_mmap_segment s) = s.mapped.siz
segment_size (file_mmap_segment s) = s.mapped.siz
segment_size (sysv_segment s) = s.id.siz
segment_size (win32_segment name s large) = s.view.siz

-- `none`: the program is terminated.
unfoldable pub spec : Segment → Option (Spec × ℕ)
unfolding segment_size
spec (unsupported_segment siz) = none
spec (posix_mmap_segment s) = some (posix_mmap_spec s.ent.nm, segment_size (posix_mmap_segment s))
spec (file_mmap_segment s) = some (file_mmap_spec s.ent.nm, segment_size (file_mmap_segment s))
spec (sysv_segment s) = some (sysv_spec s.id.shmid, segment_size (sysv_segment s))
spec (win32_segment name s large) =
    some (win32_spec name large, segment_size (win32_segment name s large))

-- The destructor.
unfoldable pub end_segment : Host → Segment → M Bool
end_segment h (unsupported_segment siz) = pure true
end_segment h (posix_mmap_segment s) = end_mmap_shmem h s
end_segment h (file_mmap_segment s) = end_mmap_shmem h s
end_segment h (sysv_segment s) = end_sysv_shmem h s
end_segment h (win32_segment name s large) = end_win32_shmem h s

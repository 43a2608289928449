-- ===== src/Segment/Lifetime.antt =====
-- What a segment takes from the system, on whatever path its constructor goes, and what its
-- destructor gives back.
use partake.Prelude.{
  ℕ, ◌+◌, ◌≡◌, Bool, true, false, Option, none, some, arith, [], ◌∷◌, Bool-cases, inl, inr,
}
use partake.System.{Text, ℤ, pos, Log, Host}
use partake.System.Balance.{Resource, IsReal, Gains, Loses, acquired, released}
use partake.Shmem.{releases-unnamed, with_unlink}
use partake.Shmem.Mmap.{generate_filename}
use partake.Shmem.Mmap.Lifetime.{
  owns_shmem, create_posix_mmap_shmem-Gains, create_file_mmap_shmem-Gains, end_mmap_shmem-Loses,
}
use partake.Shmem.Sysv.{is_private}
use partake.Shmem.Sysv.Lifetime.{owns_sysv, create_sysv_shmem-Gains, end_sysv_shmem-Loses}
use partake.Shmem.Win32.Lifetime.{
  owns_win32, create_win32_shmem-Gains, create_win32_file_shmem-Gains, end_win32_shmem-Loses,
}
use partake.Segment.{
  Method, posix_mmap, file_mmap, sysv, win32, SegmentConfig, Segment, unsupported_segment,
  posix_mmap_segment, file_mmap_segment, sysv_segment, win32_segment, name_or_generated, forced,
  make_file_mmap, at_canonical, make_sysv, make_win32, at_canonical_path, mapping_name, make_method,
  make_segment, end_segment,
}

abbrev owns : Resource → Segment → ℕ
owns r (unsupported_segment siz) = 0
owns r (posix_mmap_segment s) = owns_shmem r s
owns r (file_mmap_segment s) = owns_shmem r s
owns r (sysv_segment s) = owns_sysv r s
owns r (win32_segment name s large) = owns_win32 r s

module _ (h : Host) (r : Resource) (real : IsReal r) where
  at_canonical-Gains :
      (canon : Option Text) (force : Bool) (size : ℕ) (l : Log)
      → Gains r
          (owns_shmem r (at_canonical h canon force size l).0)
          l
          (at_canonical h canon force size l).1
  at_canonical-Gains none force size l = ground (arith, releases-unnamed h r with_unlink real)
  at_canonical-Gains (some canon) force size l =
      create_file_mmap_shmem-Gains h r real canon size force l

  make_file_mmap-Gains :
      (filename : Text) (force : Bool) (size : ℕ) (l : Log)
      → Gains r
          (owns_shmem r (make_file_mmap h filename force size l).0)
          l
          (make_file_mmap h filename force size l).1
  make_file_mmap-Gains [] force size l =
      create_file_mmap_shmem-Gains h r real (generate_filename h) size false l
  make_file_mmap-Gains (c ∷ filename) force size l =
      at_canonical-Gains (h.canonical (c ∷ filename)) force size l

  make_sysv-Gains :
      (key : ℤ) (force huge : Bool) (huge_page_size size : ℕ) (l : Log)
      → Gains r
          (owns_sysv r (make_sysv h key force huge huge_page_size size l).0)
          l
          (make_sysv h key force huge huge_page_size size l).1
  make_sysv-Gains key force huge huge_page_size size l = elim (Bool-cases (is_private key)) [
    | inl e ↦ rw e (create_sysv_shmem-Gains h r real (pos 0) size false huge huge_page_size l)
    | inr e ↦ rw e (create_sysv_shmem-Gains h r real key size force huge huge_page_size l)
  ]

  at_canonical_path-Gains :
      (canon : Option Text) (name : Text) (force large : Bool) (size : ℕ) (l : Log)
      → Gains r
          (owns_win32 r (at_canonical_path h canon name force large size l).0)
          l
          (at_canonical_path h canon name force large size l).1
  at_canonical_path-Gains none name force large size l = omega arith
  at_canonical_path-Gains (some canon) name force large size l =
      create_win32_file_shmem-Gains h r real canon name size force large l

  make_win32-Gains :
      (filename name : Text) (force large : Bool) (size : ℕ) (l : Log)
      → Gains r
          (owns_win32 r (make_win32 h filename name force large size l).0)
          l
          (make_win32 h filename name force large size l).1
  make_win32-Gains [] name force large size l = create_win32_shmem-Gains h r real name size large l
  make_win32-Gains (c ∷ filename) name force large size l =
      at_canonical_path-Gains (h.canonical (c ∷ filename)) name force large size l

  make_method-Gains :
      (windows : Bool) (method : Method) (size : ℕ) (l : Log)
      → h.apple ≡ false
      → Gains r
          (owns r (make_method h windows method size l).0)
          l
          (make_method h windows method size l).1
  make_method-Gains true (posix_mmap name force) size l e = omega arith
  make_method-Gains true (file_mmap filename force) size l e = omega arith
  make_method-Gains true (sysv key force huge huge_page_size) size l e = omega arith
  make_method-Gains true (win32 filename name force large) size l e =
      make_win32-Gains filename (mapping_name h name) force large size l
  make_method-Gains false (posix_mmap name force) size l e =
      create_posix_mmap_shmem-Gains h r real (name_or_generated h name) size (forced name force) l e
  make_method-Gains false (file_mmap filename force) size l e =
      make_file_mmap-Gains filename force size l
  make_method-Gains false (sysv key force huge huge_page_size) size l e =
      make_sysv-Gains key force huge huge_page_size size l
  make_method-Gains false (win32 filename name force large) size l e = omega arith

  end_segment-Loses : (s : Segment) (l : Log) → Loses r (owns r s) l (end_segment h s l).1
  unfolding end_segment
  end_segment-Loses (unsupported_segment siz) l = omega arith
  end_segment-Loses (posix_mmap_segment s) l = end_mmap_shmem-Loses h r real s l
  end_segment-Loses (file_mmap_segment s) l = end_mmap_shmem-Loses h r real s l
  end_segment-Loses (sysv_segment s) l = end_sysv_shmem-Loses h r real s l
  end_segment-Loses (win32_segment name s large) l = end_win32_shmem-Loses h r real s l

-- Whatever the system answers, and on every path of the constructor, a segment that is made and
-- ended has given back each descriptor, name, mapping, identifier, attachment, handle and view
-- exactly as often as it acquired it: nothing leaks, and nothing is given back twice. The empty
-- name, the null pointer or handle and MAP_FAILED are no resources. It is not stated for macOS,
-- where an older object of the name is unlinked first.
pub segment_balanced :
    (h : Host) (config : SegmentConfig) (r : Resource) (l : Log)
    → IsReal r
    → h.apple ≡ false
    → (let (s, l') = make_segment h config l in
        let (b, l'') = end_segment h s l' in
        acquired r l'' + released r l ≡ acquired r l + released r l'')
unfolding make_segment
segment_balanced h config r l real e =
    let made = make_method h h.windows config.method config.size l in
    omega (
      arith,
      make_method-Gains h r real h.windows config.method config.size l e,
      end_segment-Loses h r real made.0 made.1,
    )

-- ===== src/Segment/Size.antt =====
-- What a valid segment is: its size, what clients are told of it, and where the test for validity
-- is wrong.
use partake.Prelude.{
  ℕ, ◌+◌, ◌^◌, ◌<◌, ◌≤◌, ◌≡◌, ◌≢◌, Bool, true, false, Option, none, some, if◌then◌else◌, arith,
  refl, [], ◌∷◌, Bool-cases, inl, inr,
}
use partake.Sizes.{round_up_or_check_size, round_up-ge}
use partake.PageSize.{file_page_size}
use partake.System.{Text, ℤ, pos, Log, Host}
use partake.Shmem.{FileDescriptor}
use partake.Shmem.Mmap.{
  Opened, mmap_mapping, mapping_is_valid, rounded, create_posix_shmem, create_regular_file,
  create_posix_mmap_shmem, create_file_mmap_shmem, generate_filename,
}
use partake.Shmem.Sysv.{
  sysv_is_valid, is_private, get_id, remove_existing, create_sysv_shmem_id, create_sysv_shmem,
  page_size_for, huge_pages_flags,
}
use partake.Shmem.Win32.{
  Handle, win32_is_valid, win32_map_view, without_file, with_file, on_file, granularity,
  create_file_mapping, create_autodeleted_file, create_win32_shmem, create_win32_file_shmem,
}
use partake.Segment.{
  Method, posix_mmap, file_mmap, sysv, win32, SegmentConfig, name_or_generated, forced,
  make_file_mmap, at_canonical, make_sysv, make_win32, at_canonical_path, mapping_name, make_method,
  make_segment, is_valid, segment_size, spec,
}

mmap_mapping-siz :
    (h : Host) (size : ℕ) (fd : FileDescriptor) (l : Log) → (mmap_mapping h size fd l).0.siz ≡ size
unfolding mmap_mapping
mmap_mapping-siz h size none l = refl
mmap_mapping-siz h size (some d) l = ground arith

module _ (h : Host) (size : ℕ) (fits : size + 2 ^ 20 < 2 ^ 64) where
  rounded_size :
      (o : Opened) (g : ℕ) (l : Log)
      → mapping_is_valid (rounded h o (round_up_or_check_size size g) l).0.mapped ≡ true
      → size ≤ (rounded h o (round_up_or_check_size size g) l).0.mapped.siz
  rounded_size o g l v = go (round_up_or_check_size size g) refl v
    where
      go :
          (n : Option ℕ)
          → round_up_or_check_size size g ≡ n
          → mapping_is_valid (rounded h o n l).0.mapped ≡ true
          → size ≤ (rounded h o n l).0.mapped.siz
      go none e v = absurd (ground (arith, v))
      go (some n) e v = omega (arith, round_up-ge size g n fits e, mmap_mapping-siz h n o.fd l)

  posix_size :
      (name : Text) (force : Bool) (l : Log)
      → mapping_is_valid (create_posix_mmap_shmem h name size force l).0.mapped ≡ true
      → size ≤ (create_posix_mmap_shmem h name size force l).0.mapped.siz
  unfolding create_posix_mmap_shmem
  posix_size name force l v =
      let o = create_posix_shmem h name force l in rounded_size o.0 h.page_size o.1 v

  file_size :
      (name : Text) (force : Bool) (l : Log)
      → mapping_is_valid (create_file_mmap_shmem h name size force l).0.mapped ≡ true
      → size ≤ (create_file_mmap_shmem h name size force l).0.mapped.siz
  unfolding create_file_mmap_shmem
  file_size name force l v =
      let o = create_regular_file h name force l in
      rounded_size o.0 (if h.linux then file_page_size h o.0.fd else h.page_size) o.1 v

  canonical_size :
      (canon : Option Text) (force : Bool) (l : Log)
      → mapping_is_valid (at_canonical h canon force size l).0.mapped ≡ true
      → size ≤ (at_canonical h canon force size l).0.mapped.siz
  canonical_size none force l v = absurd (ground (arith, v))
  canonical_size (some canon) force l v = file_size canon force l v

  file_mmap_size :
      (name : Text) (force : Bool) (l : Log)
      → mapping_is_valid (make_file_mmap h name force size l).0.mapped ≡ true
      → size ≤ (make_file_mmap h name force size l).0.mapped.siz
  file_mmap_size [] force l v = file_size (generate_filename h) false l v
  file_mmap_size (c ∷ name) force l v = canonical_size (h.canonical (c ∷ name)) force l v

  got_size :
      (key : ℤ) (force : Bool) (flags g i : ℕ) (l : Log)
      → (get_id h key force flags (round_up_or_check_size size g) l).0.shmid ≡ some i
      → size ≤ (get_id h key force flags (round_up_or_check_size size g) l).0.siz
  got_size key force flags g i l v = go (round_up_or_check_size size g) refl v
    where
      go :
          (n : Option ℕ)
          → round_up_or_check_size size g ≡ n
          → (get_id h key force flags n l).0.shmid ≡ some i
          → size ≤ (get_id h key force flags n l).0.siz
      go none e v = absurd (ground (arith, v))
      go (some n) e v = ground (arith, round_up-ge size g n fits e, v)

  id_size :
      (key : ℤ) (force huge : Bool) (huge_page_size i : ℕ) (l : Log)
      → (create_sysv_shmem_id h key size force huge huge_page_size l).0.shmid ≡ some i
      → size ≤ (create_sysv_shmem_id h key size force huge huge_page_size l).0.siz
  unfolding create_sysv_shmem_id
  id_size key force huge huge_page_size i l v = ground (
    arith,
    v,
    got_size key force (huge_pages_flags h huge huge_page_size)
        (page_size_for h huge huge_page_size) i (remove_existing h key force l).1,
  )

  sysv_size :
      (key : ℤ) (force huge : Bool) (huge_page_size : ℕ) (l : Log)
      → sysv_is_valid (create_sysv_shmem h key size force huge huge_page_size l).0 ≡ true
      → size ≤ (create_sysv_shmem h key size force huge huge_page_size l).0.id.siz
  unfolding create_sysv_shmem
  sysv_size key force huge huge_page_size l v =
      go (create_sysv_shmem_id h key size force huge huge_page_size l).0.shmid refl
    where
      go :
          (o : Option ℕ)
          → (create_sysv_shmem_id h key size force huge huge_page_size l).0.shmid ≡ o
          → size ≤ (create_sysv_shmem h key size force huge huge_page_size l).0.id.siz
      go none e = absurd (ground (arith, v, e))
      go (some i) e = id_size key force huge huge_page_size i l e

  make_sysv_size :
      (key : ℤ) (force huge : Bool) (huge_page_size : ℕ) (l : Log)
      → sysv_is_valid (make_sysv h key force huge huge_page_size size l).0 ≡ true
      → size ≤ (make_sysv h key force huge huge_page_size size l).0.id.siz
  make_sysv_size key force huge huge_page_size l v = elim (Bool-cases (is_private key)) [
    | inl e ↦ rw e (sysv_size (pos 0) false huge huge_page_size l (rw e at v))
    | inr e ↦ rw e (sysv_size key force huge huge_page_size l (rw e at v))
  ]

  view_siz :
      (d : Handle) (n : ℕ) (large : Bool) (l : Log) → (win32_map_view h d n large l).0.siz ≡ n
  unfolding win32_map_view
  view_siz none n large l = refl
  view_siz (some d) n large l = refl

  without_file_size :
      (name : Text) (large : Bool) (g : ℕ) (l : Log)
      → win32_is_valid (without_file h name large (round_up_or_check_size size g) l).0 ≡ true
      → size ≤ (without_file h name large (round_up_or_check_size size g) l).0.view.siz
  without_file_size name large g l v = go (round_up_or_check_size size g) refl v
    where
      go :
          (n : Option ℕ)
          → round_up_or_check_size size g ≡ n
          → win32_is_valid (without_file h name large n l).0 ≡ true
          → size ≤ (without_file h name large n l).0.view.siz
      go none e v = absurd (ground (arith, v))
      go (some n) e v =
          let m = create_file_mapping h none name n large l in
          omega (arith, round_up-ge size g n fits e, view_siz m.0 n large m.1)

  on_file_size :
      (name : Text) (n : ℕ) (large : Bool) (file : Handle) (l : Log)
      → size ≤ n
      → win32_is_valid (on_file h name n large file l).0 ≡ true
      → size ≤ (on_file h name n large file l).0.view.siz
  on_file_size name n large none l le v = absurd (ground (arith, v))
  on_file_size name n large (some d) l le v =
      let m = create_file_mapping h (some d) name n large l in
      omega (arith, le, view_siz m.0 n large m.1)

  with_file_size :
      (path name : Text) (force large : Bool) (g : ℕ) (l : Log)
      → win32_is_valid (with_file h path name force large (round_up_or_check_size size g) l).0
        ≡ true
      → size ≤ (with_file h path name force large (round_up_or_check_size size g) l).0.view.siz
  unfolding create_autodeleted_file
  with_file_size path name force large g l v = go (round_up_or_check_size size g) refl v
    where
      go :
          (n : Option ℕ)
          → round_up_or_check_size size g ≡ n
          → win32_is_valid (with_file h path name force large n l).0 ≡ true
          → size ≤ (with_file h path name force large n l).0.view.siz
      go none e v = absurd (ground (arith, v))
      go (some n) e v =
          let f = create_autodeleted_file h path force l in
          on_file_size name n large f.0 f.1 (round_up-ge size g n fits e) v

  path_size :
      (canon : Option Text) (name : Text) (force large : Bool) (l : Log)
      → win32_is_valid (at_canonical_path h canon name force large size l).0 ≡ true
      → size ≤ (at_canonical_path h canon name force large size l).0.view.siz
  unfolding create_win32_file_shmem
  path_size none name force large l v = absurd (ground (arith, v))
  path_size (some canon) name force large l v =
      with_file_size canon name force large (granularity h large) l v

  make_win32_size :
      (filename name : Text) (force large : Bool) (l : Log)
      → win32_is_valid (make_win32 h filename name force large size l).0 ≡ true
      → size ≤ (make_win32 h filename name force large size l).0.view.siz
  unfolding create_win32_shmem
  make_win32_size [] name force large l v = without_file_size name large (granularity h large) l v
  make_win32_size (c ∷ filename) name force large l v =
      path_size (h.canonical (c ∷ filename)) name force large l v

  make_method_size :
      (windows : Bool) (method : Method) (l : Log)
      → is_valid (make_method h windows method size l).0 ≡ true
      → (size ≤ segment_size (make_method h windows method size l).0)
        × (spec (make_method h windows method size l).0 ≢ none)
  unfolding is_valid segment_size spec
  make_method_size true (posix_mmap name force) l v = absurd (ground (arith, v))
  make_method_size true (file_mmap filename force) l v = absurd (ground (arith, v))
  make_method_size true (sysv key force huge huge_page_size) l v = absurd (ground (arith, v))
  make_method_size true (win32 filename name force large) l v =
      (make_win32_size filename (mapping_name h name) force large l v, λ e. cc e)
  make_method_size false (posix_mmap name force) l v =
      (posix_size (name_or_generated h name) (forced name force) l v, λ e. cc e)
  make_method_size false (file_mmap filename force) l v =
      (file_mmap_size filename force l v, λ e. cc e)
  make_method_size false (sysv key force huge huge_page_size) l v =
      (make_sysv_size key force huge huge_page_size l v, λ e. cc e)
  make_method_size false (win32 filename name force large) l v = absurd (ground (arith, v))

-- A segment that is valid has at least the size asked for, if that leaves room for rounding up, and
-- a description for clients.
pub make_segment-size :
    (h : Host) (config : SegmentConfig) (l : Log)
    → config.size + 2 ^ 20 < 2 ^ 64
    → is_valid (make_segment h config l).0 ≡ true
    → (config.size ≤ segment_size (make_segment h config l).0)
      × (spec (make_segment h config l).0 ≢ none)
unfolding make_segment
make_segment-size h config l fits v =
    make_method_size h config.size fits h.windows config.method l v

-- ===== src/Shmem/Mmap/Lifetime.antt =====
-- Shared memory that is mapped with `mmap`: what it takes from the system it gives back.
use partake.Prelude.{
  ℕ, ◌+◌, ◌≡◌, ◌==◌, Bool, false, not, Option, none, some, hit, if◌then◌else◌, arith, refl, [], ◌∷◌,
  ap,
}
use partake.Sizes.{round_up_or_check_size}
use partake.PageSize.{file_page_size}
use partake.System.{Text, Call, Answer, Log, Host}
use partake.System.Balance.{
  Resource, descriptor, shm_name, file_name, mapping, shm_id, attachment, handle, view, IsReal,
  Gains, Loses, acquires, releases, acquires-quiet, releases-mute,
}
use partake.Shmem.{
  FileDescriptor, owns_descriptor, owns_name, close-Loses, unlink-Loses, UnlinkFn, with_shm_unlink,
  with_unlink, close, releases-unnamed,
}
use partake.Shmem.Mmap.{
  Opened, Mapping, MmapShmem, mmap_mapping, unmap, opened, abandon, create_posix_shmem,
  create_regular_file, end_mmap_shmem, create_posix_mmap_shmem, create_file_mmap_shmem, rounded,
  pointer,
}

abbrev owns_mapping : Resource → Mapping → ℕ
owns_mapping r m = if m.addr == 0 then 0 else hit (releases r (Call.munmap m.addr m.siz))

abbrev owns_opened : Resource → Opened → ℕ
owns_opened r o = owns_name r o.ent + owns_descriptor r o.fd

abbrev pub owns_shmem : Resource → MmapShmem → ℕ
owns_shmem r s = owns_name r s.ent + owns_mapping r s.mapped

-- What `mmap` returned is what is unmapped.
answer_owned :
    (r : Resource) (d n : ℕ) (a : Answer)
    → IsReal r
    → hit (acquires r (Call.mmap d n) a) ≡ owns_mapping r (record { siz = n; addr = pointer a })
answer_owned (descriptor e) d n a v = ground arith
answer_owned (shm_name e) d n a v = ground arith
answer_owned (file_name e) d n a v = ground arith
answer_owned (mapping p) d n a v = ground (arith, v.0, v.1)
answer_owned (shm_id e) d n a v = ground arith
answer_owned (attachment e) d n a v = ground arith
answer_owned (handle e) d n a v = ground arith
answer_owned (view e) d n a v = ground arith

abbrev open_call : UnlinkFn → Text → Bool → Call
open_call with_shm_unlink n x = Call.shm_open n x
open_call with_unlink n x = Call.open_file n x

-- What is opened is closed and unlinked.
opened_owned :
    (r : Resource) (f : UnlinkFn) (n : Text) (x : Bool) (a : Answer)
    → releases r (Call.unlink []) ≡ false
    → hit (acquires r (open_call f n x) a) ≡ owns_opened r (opened f n a)
opened_owned (descriptor e) with_shm_unlink n x a v = ground arith
opened_owned (shm_name e) with_shm_unlink n x a v = ground arith
opened_owned (file_name e) with_shm_unlink n x a v = ground arith
opened_owned (mapping e) with_shm_unlink n x a v = ground arith
opened_owned (shm_id e) with_shm_unlink n x a v = ground arith
opened_owned (attachment e) with_shm_unlink n x a v = ground arith
opened_owned (handle e) with_shm_unlink n x a v = ground arith
opened_owned (view e) with_shm_unlink n x a v = ground arith
opened_owned (descriptor e) with_unlink n x a v = ground arith
opened_owned (shm_name e) with_unlink n x a v = ground arith
opened_owned (file_name e) with_unlink n x a v = ground arith
opened_owned (mapping e) with_unlink n x a v = ground arith
opened_owned (shm_id e) with_unlink n x a v = ground arith
opened_owned (attachment e) with_unlink n x a v = ground arith
opened_owned (handle e) with_unlink n x a v = ground arith
opened_owned (view e) with_unlink n x a v = ground arith

module _ (h : Host) (r : Resource) (real : IsReal r) where
  unmap-Loses : (m : Mapping) (l : Log) → Loses r (owns_mapping r m) l (unmap h m l).1
  unfolding unmap
  unmap-Loses m l =
      ground
        (arith, acquires-quiet r (Call.munmap m.addr m.siz) (h.reply l (Call.munmap m.addr m.siz)))

  mmap_mapping-Gains :
      (size : ℕ) (fd : FileDescriptor) (l : Log)
      → Gains r (owns_mapping r (mmap_mapping h size fd l).0) l (mmap_mapping h size fd l).1
  unfolding mmap_mapping
  mmap_mapping-Gains size none l = omega arith
  mmap_mapping-Gains size (some d) l =
      let t : Call = Call.ftruncate d size in
      let c : Call = Call.mmap d size in
      let l' : Log = (t, h.reply l t) ∷ l in
      ground (
        arith,
        acquires-quiet r t (h.reply l t),
        releases-mute r t,
        releases-mute r c,
        answer_owned r d size (h.reply l' c) real,
      )

  abandon-Loses : (o : Opened) (l : Log) → Loses r (owns_opened r o) l (abandon h o l).1
  abandon-Loses o l =
      let closed = close h o.fd l in
      omega (arith, close-Loses h r o.fd l, unlink-Loses h r o.ent closed.1 real)

  rounded-Gains :
      (o : Opened) (size : Option ℕ) (l l' : Log)
      → Gains r (owns_opened r o) l l'
      → Gains r (owns_shmem r (rounded h o size l').0) l (rounded h o size l').1
  rounded-Gains o none l l' g =
      ground (arith, abandon-Loses o l', releases-unnamed h r with_unlink real)
  rounded-Gains o (some size) l l' g =
      let m = mmap_mapping h size o.fd l' in
      omega (arith, g, mmap_mapping-Gains size o.fd l', close-Loses h r o.fd m.1)

  create_regular_file-Gains :
      (name : Text) (force : Bool) (l : Log)
      → Gains r
          (owns_opened r (create_regular_file h name force l).0)
          l
          (create_regular_file h name force l).1
  unfolding create_regular_file
  create_regular_file-Gains name force l =
      let c : Call = Call.open_file name (not force) in
      omega (
        arith,
        opened_owned r with_unlink name (not force) (h.reply l c)
            (releases-unnamed h r with_unlink real),
        ap hit (releases-mute r c refl),
      )

  create_posix_shmem-Gains :
      (name : Text) (force : Bool) (l : Log)
      → h.apple ≡ false
      → Gains r
          (owns_opened r (create_posix_shmem h name force l).0)
          l
          (create_posix_shmem h name force l).1
  unfolding create_posix_shmem
  create_posix_shmem-Gains name force l e =
      let c : Call = Call.shm_open name (not force) in
      rw e (
        omega (
          arith,
          opened_owned r with_shm_unlink name (not force) (h.reply l c)
              (releases-unnamed h r with_unlink real),
          ap hit (releases-mute r c refl),
        ))

  pub end_mmap_shmem-Loses :
      (s : MmapShmem) (l : Log) → Loses r (owns_shmem r s) l (end_mmap_shmem h s l).1
  unfolding end_mmap_shmem
  end_mmap_shmem-Loses s l =
      let unmapped = unmap h s.mapped l in
      omega (arith, unmap-Loses s.mapped l, unlink-Loses h r s.ent unmapped.1 real)

  pub create_file_mmap_shmem-Gains :
      (name : Text) (size : ℕ) (force : Bool) (l : Log)
      → Gains r
          (owns_shmem r (create_file_mmap_shmem h name size force l).0)
          l
          (create_file_mmap_shmem h name size force l).1
  unfolding create_file_mmap_shmem
  create_file_mmap_shmem-Gains name size force l =
      let o = create_regular_file h name force l in
      rounded-Gains o.0
        (round_up_or_check_size size (if h.linux then file_page_size h o.0.fd else h.page_size)) l
        o.1 (create_regular_file-Gains name force l)

  pub create_posix_mmap_shmem-Gains :
      (name : Text) (size : ℕ) (force : Bool) (l : Log)
      → h.apple ≡ false
      → Gains r
          (owns_shmem r (create_posix_mmap_shmem h name size force l).0)
          l
          (create_posix_mmap_shmem h name size force l).1
  unfolding create_posix_mmap_shmem
  create_posix_mmap_shmem-Gains name size force l e =
      let o = create_posix_shmem h name force l in
      rounded-Gains o.0 (round_up_or_check_size size h.page_size) l o.1
        (create_posix_shmem-Gains name force l e)

-- ===== src/Shmem/Win32/Lifetime.antt =====
-- Named file mappings of Windows: what they take from the system they give back.
use partake.Prelude.{
  ℕ, ◌+◌, ◌≡◌, ◌==◌, Bool, true, false, not, Option, none, some, ◌||◌, hit, if◌then◌else◌, arith,
  refl, ◌∷◌, ap, Bool-cases, inl, inr,
}
use partake.Sizes.{round_up_or_check_size}
use partake.System.{Text, Call, Answer, Log, Host}
use partake.System.Balance.{
  Resource, descriptor, shm_name, file_name, mapping, shm_id, attachment, handle, view, IsReal,
  Gains, Loses, acquired, released, acquires, releases, acquires-quiet, releases-mute,
}
use partake.Shmem.Win32.{
  Handle, MapView, Win32Shmem, close_handle, with_token, adjust_privileges,
  add_lock_memory_privilege, create_autodeleted_file, not_null, unless_existing, lock_memory_if,
  create_file_mapping, pointer, win32_map_view, unmap, win32_shmem, without_file, with_file,
  on_file, granularity, create_win32_shmem, create_win32_file_shmem, end_win32_shmem, is_empty,
}

abbrev owns_handle : Resource → Handle → ℕ
owns_handle r none = 0
owns_handle r (some d) = hit (releases r (Call.close_handle d))

abbrev owns_view : Resource → MapView → ℕ
owns_view r m = if m.addr == 0 then 0 else hit (releases r (Call.unmap_view_of_file m.addr))

abbrev pub owns_win32 : Resource → Win32Shmem → ℕ
owns_win32 r s = owns_view r s.view + owns_handle r s.file_mapping + owns_handle r s.file

-- The handles that are got are those that are closed.
token_owned :
    (r : Resource) (a : Answer) → hit (acquires r Call.open_process_token a) ≡ owns_handle r a.value
token_owned (descriptor e) a = ground arith
token_owned (shm_name e) a = ground arith
token_owned (file_name e) a = ground arith
token_owned (mapping e) a = ground arith
token_owned (shm_id e) a = ground arith
token_owned (attachment e) a = ground arith
token_owned (handle e) a = ground arith
token_owned (view e) a = ground arith

file_owned :
    (r : Resource) (n : Text) (x : Bool) (a : Answer)
    → hit (acquires r (Call.create_file n x) a) ≡ owns_handle r a.value
file_owned (descriptor e) n x a = ground arith
file_owned (shm_name e) n x a = ground arith
file_owned (file_name e) n x a = ground arith
file_owned (mapping e) n x a = ground arith
file_owned (shm_id e) n x a = ground arith
file_owned (attachment e) n x a = ground arith
file_owned (handle e) n x a = ground arith
file_owned (view e) n x a = ground arith

mapping_owned :
    (r : Resource) (f : Handle) (n : Text) (s : ℕ) (x : Bool) (a : Answer)
    → IsReal r
    → hit (acquires r (Call.create_file_mapping f n s x) a) ≡ owns_handle r (not_null a.value)
mapping_owned (descriptor e) f n s x a v = ground arith
mapping_owned (shm_name e) f n s x a v = ground arith
mapping_owned (file_name e) f n s x a v = ground arith
mapping_owned (mapping e) f n s x a v = ground arith
mapping_owned (shm_id e) f n s x a v = ground arith
mapping_owned (attachment e) f n s x a v = ground arith
mapping_owned (handle e) f n s x a v = ground arith
mapping_owned (view e) f n s x a v = ground arith

view_owned :
    (r : Resource) (d n : ℕ) (x : Bool) (a : Answer)
    → IsReal r
    → hit (acquires r (Call.map_view_of_file d n x) a)
      ≡ owns_view r (record { addr = pointer a; siz = n })
view_owned (descriptor e) d n x a v = ground arith
view_owned (shm_name e) d n x a v = ground arith
view_owned (file_name e) d n x a v = ground arith
view_owned (mapping e) d n x a v = ground arith
view_owned (shm_id e) d n x a v = ground arith
view_owned (attachment e) d n x a v = ground arith
view_owned (handle e) d n x a v = ground arith
view_owned (view e) d n x a v = ground (arith, v.0, v.1)

module _ (h : Host) (r : Resource) (real : IsReal r) where
  close_handle-Loses : (d : Handle) (l : Log) → Loses r (owns_handle r d) l (close_handle h d l).1
  unfolding close_handle
  close_handle-Loses none l = omega arith
  close_handle-Loses (some d) l =
      ground (arith, acquires-quiet r (Call.close_handle d) (h.reply l (Call.close_handle d)))

  adjust_privileges-Gains : (token : ℕ) (l : Log) → Gains r 0 l (adjust_privileges h token l).1
  adjust_privileges-Gains token l =
      let c : Call = Call.lookup_privilege_value in
      let l' : Log = (c, h.reply l c) ∷ l in
      let d : Call = Call.adjust_token_privileges token in
      ground (
        arith,
        acquires-quiet r c (h.reply l c),
        releases-mute r c,
        acquires-quiet r d (h.reply l' d),
        releases-mute r d,
      )

  with_token-Loses : (t : Handle) (l : Log) → Loses r (owns_handle r t) l (with_token h t l).1
  with_token-Loses none l = omega arith
  with_token-Loses (some t) l =
      omega (
        arith,
        adjust_privileges-Gains t l,
        close_handle-Loses (some t) (adjust_privileges h t l).1,
      )

  add_lock_memory_privilege-Gains : (l : Log) → Gains r 0 l (add_lock_memory_privilege h l).1
  unfolding add_lock_memory_privilege
  add_lock_memory_privilege-Gains l =
      let c : Call = Call.open_process_token in
      let a : Answer = h.reply l c in
      omega (
        arith,
        token_owned r a,
        ap hit (releases-mute r c refl),
        with_token-Loses a.value ((c, a) ∷ l),
      )

  lock_memory_if-Gains : (b : Bool) (l : Log) → Gains r 0 l (lock_memory_if h b l).1
  lock_memory_if-Gains true l = add_lock_memory_privilege-Gains l
  lock_memory_if-Gains false l = omega arith

  unless_existing-Gains :
      (d : Handle) (e : ℕ) (l : Log)
      → acquired r (unless_existing h d e l).1 + released r l + owns_handle r d
        ≡ acquired r l
          + released r (unless_existing h d e l).1
          + owns_handle r (unless_existing h d e l).0
  unless_existing-Gains none e l = omega arith
  unless_existing-Gains (some d) e l = ground (arith, close_handle-Loses (some d) l)

  create_file_mapping-Gains :
      (file : Handle) (name : Text) (size : ℕ) (large : Bool) (l : Log)
      → Gains r
          (owns_handle r (create_file_mapping h file name size large l).0)
          l
          (create_file_mapping h file name size large l).1
  unfolding create_file_mapping
  create_file_mapping-Gains file name size large l =
      elim (Bool-cases (is_empty name || size == 0)) [
        | inl e ↦ rw e (omega arith)
        | inr e ↦
            let l' : Log = (lock_memory_if h large l).1 in
            let c : Call = Call.create_file_mapping file name size large in
            let a : Answer = h.reply l' c in
            rw e (
              omega (
                arith,
                lock_memory_if-Gains large l,
                mapping_owned r file name size large a real,
                ap hit (releases-mute r c refl),
                unless_existing-Gains (not_null a.value) a.error ((c, a) ∷ l'),
              ))
      ]

  win32_map_view-Gains :
      (m : Handle) (size : ℕ) (large : Bool) (l : Log)
      → Gains r
          (owns_view r (win32_map_view h m size large l).0)
          l
          (win32_map_view h m size large l).1
  unfolding win32_map_view
  win32_map_view-Gains none size large l = omega arith
  win32_map_view-Gains (some d) size large l =
      let c : Call = Call.map_view_of_file d size large in
      omega (arith, view_owned r d size large (h.reply l c) real, ap hit (releases-mute r c refl))

  win32_shmem-Gains :
      (file : Handle) (name : Text) (size : ℕ) (large : Bool) (l l' : Log)
      → Gains r (owns_handle r file) l l'
      → Gains r
          (owns_win32 r (win32_shmem h file name size large l').0)
          l
          (win32_shmem h file name size large l').1
  win32_shmem-Gains file name size large l l' g =
      let m = create_file_mapping h file name size large l' in
      omega (
        arith,
        g,
        create_file_mapping-Gains file name size large l',
        win32_map_view-Gains m.0 size large m.1,
      )

  unmap-Loses : (m : MapView) (l : Log) → Loses r (owns_view r m) l (unmap h m l).1
  unfolding unmap
  unmap-Loses m l = ground (
    arith,
    acquires-quiet r (Call.unmap_view_of_file m.addr) (h.reply l (Call.unmap_view_of_file m.addr)),
  )

  without_file-Gains :
      (name : Text) (large : Bool) (size : Option ℕ) (l : Log)
      → Gains r
          (owns_win32 r (without_file h name large size l).0)
          l
          (without_file h name large size l).1
  without_file-Gains name large none l = omega arith
  without_file-Gains name large (some n) l = win32_shmem-Gains none name n large l l (omega arith)

  pub create_win32_shmem-Gains :
      (name : Text) (size : ℕ) (large : Bool) (l : Log)
      → Gains r
          (owns_win32 r (create_win32_shmem h name size large l).0)
          l
          (create_win32_shmem h name size large l).1
  unfolding create_win32_shmem
  create_win32_shmem-Gains name size large l =
      without_file-Gains name large (round_up_or_check_size size (granularity h large)) l

  on_file-Gains :
      (name : Text) (size : ℕ) (large : Bool) (file : Handle) (l l' : Log)
      → Gains r (owns_handle r file) l l'
      → Gains r
          (owns_win32 r (on_file h name size large file l').0)
          l
          (on_file h name size large file l').1
  on_file-Gains name size large none l l' g = omega (arith, g)
  on_file-Gains name size large (some d) l l' g = win32_shmem-Gains (some d) name size large l l' g

  with_file-Gains :
      (path name : Text) (force large : Bool) (size : Option ℕ) (l : Log)
      → Gains r
          (owns_win32 r (with_file h path name force large size l).0)
          l
          (with_file h path name force large size l).1
  unfolding create_autodeleted_file
  with_file-Gains path name force large none l = omega arith
  with_file-Gains path name force large (some n) l =
      let c : Call = Call.create_file path (not force) in
      let a : Answer = h.reply l c in
      on_file-Gains name n large a.value l ((c, a) ∷ l)
        (omega (arith, file_owned r path (not force) a, ap hit (releases-mute r c refl)))

  pub create_win32_file_shmem-Gains :
      (path name : Text) (size : ℕ) (force large : Bool) (l : Log)
      → Gains r
          (owns_win32 r (create_win32_file_shmem h path name size force large l).0)
          l
          (create_win32_file_shmem h path name size force large l).1
  unfolding create_win32_file_shmem
  create_win32_file_shmem-Gains path name size force large l =
      with_file-Gains path name force large (round_up_or_check_size size (granularity h large)) l

  pub end_win32_shmem-Loses :
      (s : Win32Shmem) (l : Log) → Loses r (owns_win32 r s) l (end_win32_shmem h s l).1
  unfolding end_win32_shmem
  end_win32_shmem-Loses s l =
      let l1 : Log = (unmap h s.view l).1 in
      let l2 : Log = (close_handle h s.file_mapping l1).1 in
      omega (
        arith,
        unmap-Loses s.view l,
        close_handle-Loses s.file_mapping l1,
        close_handle-Loses s.file l2,
      )

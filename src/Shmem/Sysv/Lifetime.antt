-- ===== src/Shmem/Sysv/Lifetime.antt =====
-- System V shared memory: what it takes from the system it gives back.
use partake.Prelude.{
  ℕ, ◌+◌, ◌≡◌, ◌==◌, Bool, not, Option, none, some, hit, if◌then◌else◌, arith, refl, ◌∷◌, ap,
  Bool-cases, inl, inr, Option-cases,
}
use partake.Sizes.{round_up_or_check_size}
use partake.System.{ℤ, Call, Answer, Log, Host}
use partake.System.Balance.{
  Resource, descriptor, shm_name, file_name, mapping, shm_id, attachment, handle, view, IsReal,
  Gains, Loses, acquires, releases, acquires-quiet, releases-mute,
}
use partake.Shmem.Sysv.{
  SysvShmemId, SysvShmem, remove_existing, get_id, got_id, create_sysv_shmem_id, remove, attached,
  attach, detach, create_sysv_shmem, end_sysv_shmem, page_size_for, huge_pages_flags,
}

abbrev owns_id : Resource → SysvShmemId → ℕ
owns_id r s = elim s.shmid [ none ↦ 0 | some i ↦ hit (releases r (Call.shmctl_rmid i)) ]

abbrev owns_attachment : Resource → ℕ → ℕ
owns_attachment r addr = if addr == 0 then 0 else hit (releases r (Call.shmdt addr))

abbrev pub owns_sysv : Resource → SysvShmem → ℕ
owns_sysv r s = owns_id r s.id + owns_attachment r s.attachment

-- The identifier that is got is the one that is removed.
got_id_owned :
    (r : Resource) (k : ℤ) (n : ℕ) (x : Bool) (f : ℕ) (a : Answer)
    → hit (acquires r (Call.shmget k n x f) a) ≡ owns_id r (got_id n a)
got_id_owned (descriptor e) k n x f a = ground arith
got_id_owned (shm_name e) k n x f a = ground arith
got_id_owned (file_name e) k n x f a = ground arith
got_id_owned (mapping e) k n x f a = ground arith
got_id_owned (shm_id e) k n x f a = ground arith
got_id_owned (attachment e) k n x f a = ground arith
got_id_owned (handle e) k n x f a = ground arith
got_id_owned (view e) k n x f a = ground arith

found_owned :
    (r : Resource) (k : ℤ) (a : Answer)
    → hit (acquires r (Call.shmget_existing k) a) ≡ owns_id r (got_id 0 a)
found_owned (descriptor e) k a = ground arith
found_owned (shm_name e) k a = ground arith
found_owned (file_name e) k a = ground arith
found_owned (mapping e) k a = ground arith
found_owned (shm_id e) k a = ground arith
found_owned (attachment e) k a = ground arith
found_owned (handle e) k a = ground arith
found_owned (view e) k a = ground arith

attached_owned :
    (r : Resource) (i : ℕ) (a : Answer)
    → IsReal r
    → hit (acquires r (Call.shmat i) a) ≡ owns_attachment r (attached a)
attached_owned (descriptor e) i a v = ground arith
attached_owned (shm_name e) i a v = ground arith
attached_owned (file_name e) i a v = ground arith
attached_owned (mapping e) i a v = ground arith
attached_owned (shm_id e) i a v = ground arith
attached_owned (attachment e) i a v = ground arith
attached_owned (handle e) i a v = ground arith
attached_owned (view e) i a v = ground arith

module _ (h : Host) (r : Resource) (real : IsReal r) where
  remove_existing-Gains :
      (key : ℤ) (force : Bool) (l : Log) → Gains r 0 l (remove_existing h key force l).1
  unfolding remove_existing
  remove_existing-Gains key force l =
      let c : Call = Call.shmget_existing key in
      let a : Answer = h.reply l c in
      let l' : Log = (c, a) ∷ l in
      elim (Option-cases a.value) [
        | inl e ↦ ground (arith, found_owned r key a, releases-mute r c)
        | inr (i, e) ↦ ground (
          arith,
          e,
          found_owned r key a,
          releases-mute r c,
          acquires-quiet r (Call.shmctl_rmid i) (h.reply l' (Call.shmctl_rmid i)),
        )
      ]

  get_id-Gains :
      (key : ℤ) (force : Bool) (flags : ℕ) (size : Option ℕ) (l : Log)
      → Gains r
          (owns_id r (get_id h key force flags size l).0)
          l
          (get_id h key force flags size l).1
  get_id-Gains key force flags none l = omega arith
  get_id-Gains key force flags (some size) l =
      let c : Call = Call.shmget key size (not force) flags in
      omega (
        arith,
        got_id_owned r key size (not force) flags (h.reply l c),
        ap hit (releases-mute r c refl),
      )

  create_sysv_shmem_id-Gains :
      (key : ℤ) (size : ℕ) (force use_huge_pages : Bool) (huge_page_size : ℕ) (l : Log)
      → Gains r
          (owns_id r (create_sysv_shmem_id h key size force use_huge_pages huge_page_size l).0)
          l
          (create_sysv_shmem_id h key size force use_huge_pages huge_page_size l).1
  unfolding create_sysv_shmem_id
  create_sysv_shmem_id-Gains key size force use_huge_pages huge_page_size l =
      elim (Bool-cases (size == 0)) [
        | inl e ↦ rw e (omega arith)
        | inr e ↦ rw e (
            omega (
              arith,
              remove_existing-Gains key force l,
              get_id-Gains key force (huge_pages_flags h use_huge_pages huge_page_size)
                  (round_up_or_check_size size (page_size_for h use_huge_pages huge_page_size))
                  (remove_existing h key force l).1,
            ))
      ]

  attach-Gains :
      (id : Option ℕ) (l : Log) → Gains r (owns_attachment r (attach h id l).0) l (attach h id l).1
  unfolding attach
  attach-Gains none l = omega arith
  attach-Gains (some i) l =
      let c : Call = Call.shmat i in
      omega (arith, attached_owned r i (h.reply l c) real, ap hit (releases-mute r c refl))

  detach-Loses : (addr : ℕ) (l : Log) → Loses r (owns_attachment r addr) l (detach h addr l).1
  unfolding detach
  detach-Loses addr l =
      ground (arith, acquires-quiet r (Call.shmdt addr) (h.reply l (Call.shmdt addr)))

  remove-Loses : (s : SysvShmemId) (l : Log) → Loses r (owns_id r s) l (remove h s l).1
  unfolding remove
  remove-Loses s l = elim (Option-cases s.shmid) [
    | inl e ↦ rw e (omega arith)
    | inr (i, e) ↦
        ground (arith, e, acquires-quiet r (Call.shmctl_rmid i) (h.reply l (Call.shmctl_rmid i)))
  ]

  pub create_sysv_shmem-Gains :
      (key : ℤ) (size : ℕ) (force use_huge_pages : Bool) (huge_page_size : ℕ) (l : Log)
      → Gains r
          (owns_sysv r (create_sysv_shmem h key size force use_huge_pages huge_page_size l).0)
          l
          (create_sysv_shmem h key size force use_huge_pages huge_page_size l).1
  unfolding create_sysv_shmem
  create_sysv_shmem-Gains key size force use_huge_pages huge_page_size l =
      let i = create_sysv_shmem_id h key size force use_huge_pages huge_page_size l in
      omega (
        arith,
        create_sysv_shmem_id-Gains key size force use_huge_pages huge_page_size l,
        attach-Gains i.0.shmid i.1,
      )

  pub end_sysv_shmem-Loses :
      (s : SysvShmem) (l : Log) → Loses r (owns_sysv r s) l (end_sysv_shmem h s l).1
  unfolding end_sysv_shmem
  end_sysv_shmem-Loses s l =
      let detached = detach h s.attachment l in
      omega (arith, detach-Loses s.attachment l, remove-Loses s.id detached.1)

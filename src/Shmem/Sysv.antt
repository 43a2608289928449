-- ===== src/Shmem/Sysv.antt =====
-- daemon/shmem_sysv.hpp and daemon/shmem_sysv.cpp: System V shared memory. A pointer is its
-- address; the key 0 is IPC_PRIVATE.
pub mod Lifetime
use partake.Prelude.{
  ℕ, ◌≡◌, ◌==◌, ◌+◌, ◌*◌, ◌^◌, Bool, true, false, not, Option, none, some, List, [], ◌∷◌, ◌&&◌,
  ◌||◌, ltb, bit_or, if◌then◌else◌, arith, refl,
}
use partake.Sizes.{round_up_or_check_size, log2_size}
use partake.System.{
  ℤ, pos, negsuc, Call, Answer, Log, Host, M, ◌>>=◌, ◌>>◌, pure, invoke, succeeded,
}
use partake.PageSize.{default_huge_page_size, huge_page_sizes}

-- `sysv_shmem_id`: the identifier, `none` for -1, and the size.
pub record SysvShmemId : Type 0 where
  pub shmid : Option ℕ
  pub siz : ℕ

abbrev no_id : SysvShmemId
no_id = record { shmid = none; siz = 0 }

abbrev pub is_private : ℤ → Bool
is_private (pos n) = n == 0
is_private (negsuc n) = false

abbrev contains : List ℕ → ℕ → Bool
contains [] n = false
contains (m ∷ ms) n = m == n || contains ms n

-- 0 for a size that is not supported.
unfoldable pub linux_page_size : Host → Bool → ℕ → ℕ
unfolding default_huge_page_size huge_page_sizes
linux_page_size h use_huge_pages huge_page_size =
    if use_huge_pages
    then (if huge_page_size == 0
        then default_huge_page_size h
        else if contains (huge_page_sizes h) huge_page_size
        then huge_page_size
        else 0)
    else h.page_size

-- The page size, 0 where the code gives up.
abbrev pub page_size_for : Host → Bool → ℕ → ℕ
page_size_for h use_huge_pages huge_page_size =
    if h.linux
    then linux_page_size h use_huge_pages huge_page_size
    else if use_huge_pages
    then 0
    else h.page_size

abbrev shm_hugetlb : ℕ
shm_hugetlb = 0x800

-- The logarithm of the page size stands from bit 26 on.
unfoldable pub huge_pages_flags : Host → Bool → ℕ → ℕ
unfolding log2_size
huge_pages_flags h use_huge_pages huge_page_size =
    if h.linux && use_huge_pages
    then (if ltb 0 huge_page_size
        then elim (log2_size huge_page_size) [
          | none ↦ shm_hugetlb
          | some k ↦ bit_or shm_hugetlb (k * 2 ^ 26)
        ]
        else shm_hugetlb)
    else 0

abbrev remove_found : Host → Answer → M Bool
remove_found h a = elim a.value [
  | none ↦ pure false
  | some id ↦ do b ← invoke h (Call.shmctl_rmid id); pure (succeeded b)
]

-- Memory that has the key already is removed first.
unfoldable pub remove_existing : Host → ℤ → Bool → M Bool
remove_existing h key force =
    if force && not (is_private key)
    then (do a ← invoke h (Call.shmget_existing key); remove_found h a)
    else pure true

abbrev pub got_id : ℕ → Answer → SysvShmemId
got_id size a = elim a.value [ none ↦ no_id | some id ↦ record { shmid = some id; siz = size } ]

abbrev pub get_id : Host → ℤ → Bool → ℕ → Option ℕ → M SysvShmemId
get_id h key force flags none = pure no_id
get_id h key force flags (some size) = do
  a ← invoke h (Call.shmget key size (not force) flags)
  pure (got_id size a)

unfoldable pub create_sysv_shmem_id : Host → ℤ → ℕ → Bool → Bool → ℕ → M SysvShmemId
unfolding remove_existing linux_page_size huge_pages_flags
create_sysv_shmem_id h key size force use_huge_pages huge_page_size =
    if size == 0 then pure no_id else (do
      remove_existing h key force
      get_id h key force (huge_pages_flags h use_huge_pages huge_page_size)
          (round_up_or_check_size size (page_size_for h use_huge_pages huge_page_size)))

-- The result, and the identifier after it.
unfoldable pub remove : Host → SysvShmemId → M (Bool × SysvShmemId)
remove h s = elim s.shmid [
  | none ↦ pure (true, s)
  | some id ↦ do a ← invoke h (Call.shmctl_rmid id); pure (succeeded a, record s { shmid = none })
]

-- `sysv_shmem_attachment`, by its address: the null pointer is 0.
abbrev pub attached : Answer → ℕ
attached a = elim a.value [ none ↦ 0 | some p ↦ p ]

unfoldable pub attach : Host → Option ℕ → M ℕ
attach h none = pure 0
attach h (some id) = do a ← invoke h (Call.shmat id); pure (attached a)

unfoldable pub detach : Host → ℕ → M (Bool × ℕ)
detach h addr =
    if addr == 0 then pure (true, 0) else (do a ← invoke h (Call.shmdt addr); pure (succeeded a, 0))

pub record SysvShmem : Type 0 where
  pub id : SysvShmemId
  pub attachment : ℕ

abbrev is_some : Option ℕ → Bool
is_some none = false
is_some (some n) = true

abbrev pub sysv_is_valid : SysvShmem → Bool
sysv_is_valid s = is_some s.id.shmid && not (s.attachment == 0)

unfoldable pub create_sysv_shmem : Host → ℤ → ℕ → Bool → Bool → ℕ → M SysvShmem
unfolding create_sysv_shmem_id attach
create_sysv_shmem h key size force use_huge_pages huge_page_size = do
  i ← create_sysv_shmem_id h key size force use_huge_pages huge_page_size
  addr ← attach h i.shmid
  pure (record { id = i; attachment = addr })

-- The destructor: the members end in reverse order.
unfoldable pub end_sysv_shmem : Host → SysvShmem → M Bool
unfolding detach remove
end_sysv_shmem h s = do detach h s.attachment; r ← remove h s.id; pure r.0

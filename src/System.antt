-- ===== src/System.antt =====
-- The calls of the operating system that the daemon makes for its shared memory (common/posix.hpp,
-- common/win32.hpp, daemon/shmem_mmap.cpp, daemon/shmem_sysv.cpp, daemon/shmem_win32.cpp), with the
-- answers, as a log. What the system answers is a parameter. Log output is left out.
pub mod Balance
use partake.Prelude.{ℕ, ◌==◌, Bool, true, false, Option, none, some, List, [], ◌∷◌}

-- A text by the codes of its characters.
abbrev pub Text : Type 0
Text = List ℕ

-- A C++ `int`: `negsuc n` is -(n + 1).
pub data ℤ : Type 0 where
  pos : ℕ → ℤ
  negsuc : ℕ → ℤ

-- The Boolean of the calls that open is O_EXCL, IPC_EXCL or CREATE_NEW; that of the last calls on
-- Windows is whether large pages are asked for. Modes and permissions are left out.
pub data Call : Type 0 where
  shm_open : Text → Bool → Call
  open_file : Text → Bool → Call
  shm_unlink : Text → Call
  unlink : Text → Call
  close : ℕ → Call
  ftruncate : ℕ → ℕ → Call
  mmap : ℕ → ℕ → Call
  munmap : ℕ → ℕ → Call
  shmget : ℤ → ℕ → Bool → ℕ → Call
  shmget_existing : ℤ → Call
  shmctl_rmid : ℕ → Call
  shmat : ℕ → Call
  shmdt : ℕ → Call
  open_process_token lookup_privilege_value : Call
  adjust_token_privileges : ℕ → Call
  create_file : Text → Bool → Call
  create_file_mapping : Option ℕ → Text → ℕ → Bool → Call
  map_view_of_file : ℕ → ℕ → Bool → Call
  unmap_view_of_file : ℕ → Call
  close_handle : ℕ → Call

-- What a call returns, `none` for -1 (as a number, a pointer or a handle), and what `errno` or
-- `GetLastError` is then. For `OpenProcessToken` it is the token, `none` if the call failed.
pub record Answer : Type 0 where
  pub value : Option ℕ
  pub error : ℕ

-- The calls made so far, the last one first.
abbrev pub Log : Type 0
Log = List (Call × Answer)

-- The machine that the daemon runs on: what the system answers, the pages, `fstatfs` with the type
-- and the block size, /proc/meminfo, the names in /sys/kernel/mm/hugepages, the numbers below 62
-- that the uniform distribution draws, `std::filesystem::weakly_canonical`, and the directory for
-- temporary files.
pub record Host : Type 0 where
  pub reply : Log → Call → Answer
  pub apple : Bool
  pub linux : Bool
  pub windows : Bool
  pub page_size : ℕ
  pub system_allocation_granularity : ℕ
  pub large_page_minimum : ℕ
  pub file_system : ℕ → Option (ℕ × ℕ)
  pub meminfo : Option Text
  pub huge_page_names : Option (List Text)
  pub draw : ℕ → ℕ
  pub canonical : Text → Option Text
  pub temp_directory : Text

-- Code that makes system calls.
abbrev pub M : Type 0 → Type 0
M A = Log → A × Log

infixl 5 ◌>>=◌ ◌>>◌
abbrev pub ◌>>=◌ : {A B : Type 0} → M A → (A → M B) → M B
◌>>=◌ m f log = let (a, log') = m log in f a log'

abbrev pub ◌>>◌ : {A B : Type 0} → M A → M B → M B
m >> k = m >>= λ _. k

abbrev pub pure : {A : Type 0} → A → M A
pure a log = (a, log)

abbrev pub invoke : Host → Call → M Answer
invoke h c log = (h.reply log c, (c, h.reply log c) ∷ log)

-- Calls that return 0 for success; on Windows 0 is failure.
abbrev pub succeeded : Answer → Bool
succeeded a = elim a.value [ none ↦ false | some v ↦ v == 0 ]

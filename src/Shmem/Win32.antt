-- ===== src/Shmem/Win32.antt =====
-- daemon/shmem_win32.hpp, daemon/shmem_win32.cpp and common/win32.hpp: named file mappings of
-- Windows. A handle is a number, `none` for INVALID_HANDLE_VALUE; a pointer is its address.
pub mod Lifetime
use partake.Prelude.{
  ℕ, ◌≡◌, ◌==◌, ◌+◌, ◌^◌, Bool, true, false, not, Option, none, some, List, [], ◌∷◌, ◌++◌, ◌&&◌,
  ◌||◌, if◌then◌else◌, arith, refl,
}
use partake.Sizes.{round_up_or_check_size}
use partake.Random.{random_string}
use partake.System.{Text, Call, Answer, Log, Host, M, ◌>>=◌, ◌>>◌, pure, invoke}
use partake.System.Balance.{map_failed}

abbrev pub Handle : Type 0
Handle = Option ℕ

-- The result of a call that returns a BOOL.
abbrev nonzero : Answer → Bool
nonzero a = elim a.value [ none ↦ true | some v ↦ not (v == 0) ]

unfoldable pub close_handle : Host → Handle → M Bool
close_handle h none = pure true
close_handle h (some d) = do a ← invoke h (Call.close_handle d); pure (nonzero a)

abbrev error_not_all_assigned : ℕ
error_not_all_assigned = 1300

abbrev error_already_exists : ℕ
error_already_exists = 183

abbrev adjusted : Answer → Bool
adjusted a = nonzero a && not (a.error == error_not_all_assigned)

-- With the token of the process: the look-up, and the privilege.
abbrev pub adjust_privileges : Host → ℕ → M Bool
adjust_privileges h token = do
  a ← invoke h Call.lookup_privilege_value
  if nonzero a
      then (do b ← invoke h (Call.adjust_token_privileges token); pure (adjusted b))
      else pure false

abbrev pub with_token : Host → Handle → M Bool
with_token h none = pure false
with_token h (some token) = do ok ← adjust_privileges h token; close_handle h (some token); pure ok

unfoldable pub add_lock_memory_privilege : Host → M Bool
unfolding close_handle
add_lock_memory_privilege h = do a ← invoke h Call.open_process_token; with_token h a.value

unfoldable pub create_autodeleted_file : Host → Text → Bool → M Handle
create_autodeleted_file h path force = do
  a ← invoke h (Call.create_file path (not force))
  pure a.value

abbrev pub not_null : Option ℕ → Handle
not_null none = none
not_null (some d) = if d == 0 then none else some d

-- A mapping that existed already is closed again.
abbrev pub unless_existing : Host → Handle → ℕ → M Handle
unless_existing h none error = pure none
unless_existing h (some d) error =
    if error == error_already_exists then (do close_handle h (some d); pure none) else pure (some d)

abbrev pub lock_memory_if : Host → Bool → M Bool
lock_memory_if h use_large_pages =
    if use_large_pages then add_lock_memory_privilege h else pure true

abbrev pub is_empty : Text → Bool
is_empty [] = true
is_empty (c ∷ s) = false

unfoldable pub create_file_mapping : Host → Handle → Text → ℕ → Bool → M Handle
unfolding add_lock_memory_privilege close_handle
create_file_mapping h file name size use_large_pages =
    if is_empty name || size == 0 then pure none else (do
      lock_memory_if h use_large_pages
      a ← invoke h (Call.create_file_mapping file name size use_large_pages)
      unless_existing h (not_null a.value) a.error)

-- `win32_map_view`
pub record MapView : Type 0 where
  pub addr : ℕ
  pub siz : ℕ

abbrev pub pointer : Answer → ℕ
pointer a = elim a.value [ none ↦ map_failed | some p ↦ p ]

unfoldable pub win32_map_view : Host → Handle → ℕ → Bool → M MapView
win32_map_view h none size use_large_pages = pure (record { addr = 0; siz = size })
win32_map_view h (some d) size use_large_pages = do
  a ← invoke h (Call.map_view_of_file d size use_large_pages)
  pure (record { addr = pointer a; siz = size })

unfoldable pub unmap : Host → MapView → M Bool
unmap h m =
    if m.addr == 0
    then pure true
    else (do a ← invoke h (Call.unmap_view_of_file m.addr); pure (nonzero a))

pub record Win32Shmem : Type 0 where
  pub file : Handle
  pub file_mapping : Handle
  pub view : MapView

abbrev pub no_win32_shmem : Win32Shmem
no_win32_shmem = record { file = none; file_mapping = none; view = record { addr = 0; siz = 0 } }

abbrev is_some : Handle → Bool
is_some none = false
is_some (some d) = true

abbrev pub win32_is_valid : Win32Shmem → Bool
win32_is_valid s = is_some s.file_mapping && not (s.view.addr == 0)

-- The constructor, with the file, on a mapping that is made for it.
abbrev pub win32_shmem : Host → Handle → Text → ℕ → Bool → M Win32Shmem
win32_shmem h file name size use_large_pages = do
  m ← create_file_mapping h file name size use_large_pages
  v ← win32_map_view h m size use_large_pages
  pure (record { file = file; file_mapping = m; view = v })

abbrev pub granularity : Host → Bool → ℕ
granularity h use_large_pages =
    if use_large_pages then h.large_page_minimum else h.system_allocation_granularity

abbrev pub without_file : Host → Text → Bool → Option ℕ → M Win32Shmem
without_file h name use_large_pages none = pure no_win32_shmem
without_file h name use_large_pages (some size) = win32_shmem h none name size use_large_pages

unfoldable pub create_win32_shmem : Host → Text → ℕ → Bool → M Win32Shmem
unfolding create_file_mapping win32_map_view
create_win32_shmem h name size use_large_pages =
    without_file h name use_large_pages
      (round_up_or_check_size size (granularity h use_large_pages))

abbrev pub on_file : Host → Text → ℕ → Bool → Handle → M Win32Shmem
on_file h name size use_large_pages none = pure no_win32_shmem
on_file h name size use_large_pages (some d) = win32_shmem h (some d) name size use_large_pages

abbrev pub with_file : Host → Text → Text → Bool → Bool → Option ℕ → M Win32Shmem
with_file h path name force use_large_pages none = pure no_win32_shmem
with_file h path name force use_large_pages (some size) = do
  file ← create_autodeleted_file h path force
  on_file h name size use_large_pages file

unfoldable pub create_win32_file_shmem : Host → Text → Text → ℕ → Bool → Bool → M Win32Shmem
unfolding create_file_mapping win32_map_view create_autodeleted_file
create_win32_file_shmem h path name size force use_large_pages =
    with_file h path name force use_large_pages
      (round_up_or_check_size size (granularity h use_large_pages))

-- "Local\"
abbrev pub local_prefix : Text
local_prefix = 76 ∷ 111 ∷ 99 ∷ 97 ∷ 108 ∷ 92 ∷ []

-- "Local\partake-", with 24 random characters.
unfoldable pub generate_win32_file_mapping_name : Host → Text
generate_win32_file_mapping_name h =
    local_prefix ++ (112 ∷ 97 ∷ 114 ∷ 116 ∷ 97 ∷ 107 ∷ 101 ∷ 45 ∷ random_string h 24)

-- The destructor: the members end in reverse order.
unfoldable pub end_win32_shmem : Host → Win32Shmem → M Bool
unfolding unmap close_handle
end_win32_shmem h s = do unmap h s.view; close_handle h s.file_mapping; close_handle h s.file

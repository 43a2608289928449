-- ===== src/Cli/Names/Generated.antt =====
-- The names that the daemon makes up pass its own tests (daemon/shmem_mmap.cpp,
-- daemon/shmem_win32.hpp).
use partake.Prelude.{ℕ, ◌<◌, ◌≡◌, false, [], ◌∷◌, length, arith, refl}
use partake.Random.{
  random_string, AllAlphanumeric, random_string-AllAlphanumeric, length-random_string,
}
use partake.System.{Text, Host}
use partake.Shmem.Mmap.{generate_posix_shmem_name}
use partake.Shmem.Win32.{generate_win32_file_mapping_name}
use partake.Cli.Names.{expected, contains, validate_posix_shmem_name, validate_win32_shmem_name}

-- Letters and digits are no slashes or backslashes.
no_slash : (s : Text) → AllAlphanumeric s → (contains s 47 ≡ false) × (contains s 92 ≡ false)
no_slash [] a = (refl, refl)
no_slash (c ∷ s) (a, b) = ground (arith, a, no_slash s b)

-- A name that is made up for POSIX shared memory has 31 characters, which macOS allows, and is one
-- that the command line accepts.
validate-generate_posix_shmem_name :
    (h : Host)
    → ((i : ℕ) → h.draw i < 62)
    → (length (generate_posix_shmem_name h) ≡ 31)
      × (validate_posix_shmem_name (generate_posix_shmem_name h)
          ≡ expected (generate_posix_shmem_name h))
unfolding generate_posix_shmem_name validate_posix_shmem_name
validate-generate_posix_shmem_name h d =
    let (clean, _) = no_slash (random_string h 22) (random_string-AllAlphanumeric h 22 d) in
    (omega (arith, length-random_string h 22), rw clean refl)

-- So is a name that is made up for a file mapping on Windows.
validate-generate_win32_file_mapping_name :
    (h : Host)
    → ((i : ℕ) → h.draw i < 62)
    → validate_win32_shmem_name (generate_win32_file_mapping_name h)
      ≡ expected (generate_win32_file_mapping_name h)
unfolding generate_win32_file_mapping_name validate_win32_shmem_name
validate-generate_win32_file_mapping_name h d =
    let (_, clean) = no_slash (random_string h 24) (random_string-AllAlphanumeric h 24 d) in
    rw clean refl

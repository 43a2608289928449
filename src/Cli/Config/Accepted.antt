-- ===== src/Cli/Config/Accepted.antt =====
-- What the configurations are that the command line accepts, and what is accepted that should not
-- be.
use mathlib.Core.Path.{subst}
use partake.Prelude.{
  ℕ, ◌≡◌, ◌≢◌, ◌<◌, Bool, true, false, ◌&&◌, not, Option, none, some, [], ◌∷◌, ◌++◌, arith, refl,
  ◌∙◌, ◌⊎◌, inl, inr, Bool-cases, some_inj,
}
use partake.Text.{after_prefix}
use partake.System.{Text}
use partake.Shmem.Win32.{local_prefix}
use partake.Segment.{Method, posix_mmap, file_mmap, sysv, win32, SegmentConfig}
use partake.Cli.Names.{
  expected, >>=-eq-expected, expected_inj, contains, after_local, validate_posix_shmem_name,
  validate_sysv_shmem_name, validate_win32_shmem_name,
}
use partake.Cli.Config.{
  CliArgs, ShmemType, posix_type, system_v_type, win32_type, posix_file_type, win32_file_type,
  is_given, validate_segment_type, wants_huge_pages, is_win32, is_system_v, method_for, config_for,
  validate_segment_config,
}

-- A slash, at least one more character, and no slash after the first; or no name.
abbrev IsPosixName : Text → Type 0
IsPosixName [] = Unit {0}
IsPosixName (c ∷ []) = ⊥
IsPosixName (c ∷ d ∷ name) = (c ≡ 47) × (contains (d ∷ name) 47 ≡ false)

-- The prefix, at least one more character, and no backslash after the prefix; or no name.
abbrev IsLocalName : Text → Type 0
IsLocalName name =
    (name ≡ [])
    ⊎ ((c : ℕ) × (rest : Text) × (name ≡ local_prefix ++ c ∷ rest)
        × (contains (c ∷ rest) 92 ≡ false))

-- What the options say of the method, on Windows or elsewhere.
abbrev pub IsSound : Bool → Method → Type 0
IsSound is_windows (posix_mmap name force) = IsPosixName name
IsSound is_windows (file_mmap filename force) = (is_windows ≡ false) × (filename ≢ [])
IsSound is_windows (sysv key force use_huge_pages huge_page_size) =
    0 < huge_page_size → use_huge_pages ≡ true
IsSound is_windows (win32 filename name force use_large_pages) =
    (filename ≡ [] → IsLocalName name) × (use_large_pages ≡ true → filename ≡ [])

IsPosixName-sound : (s name : Text) → validate_posix_shmem_name s ≡ expected name → IsPosixName name
unfolding validate_posix_shmem_name
IsPosixName-sound s [] e = tt
IsPosixName-sound [] (d ∷ name) e = cc
IsPosixName-sound (c ∷ []) (d ∷ name) e = absurd (ground arith)
IsPosixName-sound (c ∷ x ∷ s) (d ∷ []) e = absurd (ground arith)
IsPosixName-sound (c ∷ x ∷ s) (d ∷ y ∷ name) e = ground arith

after_prefix-append : (p s rest : Text) → after_prefix p s ≡ some rest → s ≡ p ++ rest
unfolding after_prefix
after_prefix-append [] s rest e = some_inj e
after_prefix-append (c ∷ p) [] rest e = cc
after_prefix-append (c ∷ p) (d ∷ s) rest e = ground (arith, after_prefix-append p s rest)

IsLocalName-sound : (s name : Text) → validate_win32_shmem_name s ≡ expected name → IsLocalName name
unfolding validate_win32_shmem_name
IsLocalName-sound [] name e = inl (cc)
IsLocalName-sound (c ∷ s) name e = go (after_prefix local_prefix (c ∷ s)) refl e
  where
    go :
        (o : Option Text)
        → after_prefix local_prefix (c ∷ s) ≡ o
        → after_local (c ∷ s) o ≡ expected name
        → IsLocalName name
    go none p e = absurd (ground arith)
    go (some []) p e = absurd (ground arith)
    go (some (d ∷ rest)) p e = elim (Bool-cases (contains (d ∷ rest) 92)) [
      | inl f ↦ absurd (ground arith)
      | inr f ↦
          let same : name ≡ c ∷ s = ground (arith, e, f) in
          inr (d, rest, same ∙ after_prefix-append local_prefix (c ∷ s) (d ∷ rest) p, f)
    ]

-- The types of files go with a file name, each on its system.
abbrev Fits : Bool → CliArgs → ShmemType → Type 0
Fits is_windows args posix_file_type = (is_windows ≡ false) × (is_given args.filename ≡ true)
Fits is_windows args win32_file_type = is_given args.filename ≡ true
Fits is_windows args _ = Unit {0}

type_fits :
    (is_windows : Bool) (args : CliArgs) (t : ShmemType)
    → validate_segment_type is_windows args ≡ expected t
    → Fits is_windows args t
unfolding validate_segment_type
type_fits is_windows args posix_type e = tt
type_fits is_windows args system_v_type e = tt
type_fits is_windows args win32_type e = tt
type_fits is_windows args posix_file_type e = ground (arith, e)
type_fits is_windows args win32_file_type e = ground (arith, e)

pub given_ne_nil : (s : Text) → is_given s ≡ true → s ≢ []
given_ne_nil [] g = cc
given_ne_nil (c ∷ s) g = λ e. cc e

method-IsSound :
    (is_windows : Bool) (args : CliArgs) (t : ShmemType) (m : Method)
    → Fits is_windows args t
    → method_for t args ≡ expected m
    → IsSound is_windows m
method-IsSound is_windows args posix_type m fits e =
    let (name, p, q) =
      >>=-eq-expected (validate_posix_shmem_name args.name)
        (λ name. expected (posix_mmap name args.force)) e in
    subst (IsSound is_windows) (expected_inj q) (IsPosixName-sound args.name name p)
method-IsSound is_windows args system_v_type m fits e =
    let (key, p, q) =
      >>=-eq-expected (validate_sysv_shmem_name args.name)
        (λ key. expected (sysv key args.force (wants_huge_pages args) args.huge_page_size)) e in
    subst (IsSound is_windows) (expected_inj q) (λ h. ground (arith, h))
method-IsSound is_windows args win32_type m fits e =
    let (name, p, q) =
      >>=-eq-expected (validate_win32_shmem_name args.name)
        (λ name. expected (win32 [] name args.force args.large_pages)) e in
    subst (IsSound is_windows) (expected_inj q) (λ _. IsLocalName-sound args.name name p, λ _. refl)
method-IsSound is_windows args posix_file_type m fits e =
    subst (IsSound is_windows) (expected_inj e) (fits.0, given_ne_nil args.filename fits.1)
method-IsSound is_windows args win32_file_type m fits e =
    subst (IsSound is_windows) (expected_inj e)
      (λ n. absurd (given_ne_nil args.filename fits n), λ k. cc k)

config-IsSound :
    (is_windows : Bool) (args : CliArgs) (t : ShmemType) (config : SegmentConfig)
    → Fits is_windows args t
    → config_for args t ≡ expected config
    → (config.size ≡ args.memory) × IsSound is_windows config.method
config-IsSound is_windows args t config fits e =
    elim (Bool-cases (wants_huge_pages args && not (is_system_v t))) [
      | inl f ↦ absurd (ground (arith, e, f))
      | inr f ↦ elim (Bool-cases (args.large_pages && not (is_win32 t))) [
        | inl g ↦ absurd (ground (arith, e, f, g))
        | inr g ↦
            let (m, p, q) =
              >>=-eq-expected (method_for t args)
                (λ m. expected (record { method = m; size = args.memory })) (rw (f, g) at e) in
            subst (λ c. (c.size ≡ args.memory) × IsSound is_windows c.method) (expected_inj q)
              (refl, method-IsSound is_windows args t m fits p)
      ]
    ]

-- A configuration that is accepted has the size that was asked for. A name for POSIX or Windows is
-- none, or has the form that the system wants; a page size comes with huge pages; a file has a
-- name, and is not mapped with large pages. The name of a mapping of a file on Windows is left out.
pub validate_segment_config-IsSound :
    (is_windows : Bool) (args : CliArgs) (config : SegmentConfig)
    → validate_segment_config is_windows args ≡ expected config
    → (config.size ≡ args.memory) × IsSound is_windows config.method
unfolding validate_segment_config
validate_segment_config-IsSound is_windows args config e =
    let (t, p, q) = >>=-eq-expected (validate_segment_type is_windows args) (config_for args) e in
    config-IsSound is_windows args t config (type_fits is_windows args t p) q

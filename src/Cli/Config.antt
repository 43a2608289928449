-- ===== src/Cli/Config.antt =====
-- daemon/cli.cpp: the options of the command line, as they are after parsing, and the configuration
-- of the daemon. The time to live of vouchers, a `double` of seconds, is an integer of nanoseconds.
pub mod Accepted
pub mod Granularity
pub mod Sound
use partake.Prelude.{
  ℕ, ◌+◌, ◌*◌, ◌/◌, ◌^◌, ◌≡◌, ◌==◌, Bool, true, false, ◌&&◌, ◌||◌, not, Option, none, some, List,
  [], ◌∷◌, ltb, hit, if◌then◌else◌,
}
use partake.Sizes.{is_size_power_of_2, log2_size}
use partake.System.{Text, ℤ, pos, negsuc}
use partake.Segment.{Method, posix_mmap, file_mmap, sysv, win32, SegmentConfig}
use partake.Cli.Names.{
  CliError, several_types, huge_pages_without_systemv, large_pages_without_windows, no_memory,
  no_socket, granularity_not_power, granularity_too_small, ttl_not_positive, Expected, unexpected,
  expected, ◌>>=◌, validate_posix_shmem_name, validate_sysv_shmem_name, validate_win32_shmem_name,
}

pub record CliArgs : Type 0 where
  pub memory : ℕ
  pub socket : Text
  pub name : Text
  pub filename : Text
  pub posix : Bool
  pub systemv : Bool
  pub windows : Bool
  pub granularity : ℕ
  pub huge_pages : Bool
  pub huge_page_size : ℕ
  pub large_pages : Bool
  pub force : Bool
  pub voucher_ttl : ℤ

pub data ShmemType : Type 0 where
  posix_type system_v_type win32_type posix_file_type win32_file_type : ShmemType

abbrev pub is_given : Text → Bool
is_given [] = false
is_given (c ∷ s) = true

-- `is_windows`: whether the program is built for Windows.
unfoldable pub validate_segment_type : Bool → CliArgs → Expected ShmemType
validate_segment_type is_windows args =
    if ltb 1
      (hit args.posix + (hit args.systemv + (hit args.windows + hit (is_given args.filename))))
    then unexpected several_types
    else if args.posix
    then expected posix_type
    else if args.systemv
    then expected system_v_type
    else if args.windows
    then expected win32_type
    else if is_given args.filename
    then (if is_windows then expected win32_file_type else expected posix_file_type)
    else if is_windows
    then expected win32_type
    else expected posix_type

abbrev pub is_system_v : ShmemType → Bool
is_system_v t = elim t [ system_v_type ↦ true | _ ↦ false ]

abbrev pub is_win32 : ShmemType → Bool
is_win32 t = elim t [ win32_type ↦ true | _ ↦ false ]

abbrev pub wants_huge_pages : CliArgs → Bool
wants_huge_pages args = args.huge_pages || ltb 0 args.huge_page_size

-- The `switch` over the types.
abbrev pub method_for : ShmemType → CliArgs → Expected Method
method_for posix_type args = do
  name ← validate_posix_shmem_name args.name
  expected (posix_mmap name args.force)
method_for system_v_type args = do
  key ← validate_sysv_shmem_name args.name
  expected (sysv key args.force (wants_huge_pages args) args.huge_page_size)
method_for win32_type args = do
  name ← validate_win32_shmem_name args.name
  expected (win32 [] name args.force args.large_pages)
method_for posix_file_type args = expected (file_mmap args.filename args.force)
method_for win32_file_type args = expected (win32 args.filename args.name args.force false)

abbrev pub config_for : CliArgs → ShmemType → Expected SegmentConfig
config_for args t =
    if wants_huge_pages args && not (is_system_v t)
    then unexpected huge_pages_without_systemv
    else if args.large_pages && not (is_win32 t)
    then unexpected large_pages_without_windows
    else (do m ← method_for t args; expected (record { method = m; size = args.memory }))

unfoldable pub validate_segment_config : Bool → CliArgs → Expected SegmentConfig
unfolding validate_segment_type
validate_segment_config is_windows args = validate_segment_type is_windows args >>= config_for args

pub record DaemonConfig : Type 0 where
  pub endpoint : Text
  pub seg_config : SegmentConfig
  pub log2_granularity : ℕ
  pub voucher_ttl : ℕ

abbrev pub min_gran : ℕ
min_gran = 512

-- The loop of `log2_size` ends for a size that is not 0.
abbrev pub log2_of : ℕ → ℕ
log2_of g = elim (log2_size g) [ none ↦ 0 | some k ↦ k ]

-- The logarithm of the granularity; 0 if none is given.
unfoldable pub validate_granularity : ℕ → Expected ℕ
unfolding is_size_power_of_2 log2_size
validate_granularity g =
    if g == 0
    then expected 0
    else if not (is_size_power_of_2 g)
    then unexpected granularity_not_power
    else if ltb g min_gran
    then unexpected granularity_too_small
    else expected (log2_of g)

-- In milliseconds.
abbrev pub validate_ttl : ℤ → Expected ℕ
validate_ttl (pos n) = if n == 0 then unexpected ttl_not_positive else expected (n / 10 ^ 6)
validate_ttl (negsuc n) = unexpected ttl_not_positive

unfoldable pub validate_cli_args : Bool → CliArgs → Expected DaemonConfig
unfolding validate_granularity validate_segment_config
validate_cli_args is_windows args =
    if args.memory == 0
    then unexpected no_memory
    else if not (is_given args.socket)
    then unexpected no_socket
    else (do
      gran ← validate_granularity args.granularity
      ttl ← validate_ttl args.voucher_ttl
      seg ← validate_segment_config is_windows args
      expected (record {
        endpoint = args.socket;
        seg_config = seg;
        log2_granularity = gran;
        voucher_ttl = ttl;
      }))

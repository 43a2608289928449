-- ===== src/Tests/SegmentRuns.antt =====
-- The segment, the command line and the page sizes on small inputs.
use partake.Prelude.{
  ℕ, ◌+◌, ◌≡◌, ◌≢◌, ◌≤◌, ◌==◌, refl, true, false, none, some, [], ◌∷◌, arith, if◌then◌else◌,
}
use partake.Sizes.{round_up_or_check_size}
use partake.Text.{skip_blanks, digits}
use partake.System.{Text, pos, Call, Answer, Log, Host}
use partake.System.Balance.{mapping, acquired, released}
use partake.PageSize.{default_huge_page_size, huge_page_sizes}
use partake.PageSize.Sizes.{IsSorted, count, names_of, huge_page_sizes_lem}
use partake.Shmem.Mmap.{
  Mapping, no_mapping, unmap, move_construct, mmap_mapping, create_posix_shmem,
  create_posix_mmap_shmem, end_mmap_shmem,
}
use partake.Segment.{
  posix_mmap, SegmentConfig, make_segment, end_segment, is_valid, segment_size, spec,
}
use partake.Segment.Lifetime.{segment_balanced}
use partake.Segment.Size.{make_segment-size}
use partake.Segment.Failures.{make_segment_unmapped, move_construct_unmapped}
use partake.Cli.Names.{expected, validate_posix_shmem_name}
use partake.Cli.Config.{CliArgs, DaemonConfig, validate_cli_args}
use partake.Cli.Config.Sound.{IsAccepted, validate_cli_args-IsAccepted}

abbrev value : ℕ → Answer
value n = record { value = some n; error = 0 }

abbrev failure : Answer
failure = record { value = none; error = 12 }

-- Descriptor 3 is opened, and memory is mapped at the address that is given.
abbrev replies : Answer → Log → Call → Answer
replies mapped l c = elim c [ Call.shm_open n x ↦ value 3 | Call.mmap d n ↦ mapped | _ ↦ value 0 ]

-- "Hugepagesize: 2048 kB" and "hugepages-1024kB"
abbrev meminfo : Text
meminfo =
    72 ∷ 117 ∷ 103 ∷ 101 ∷ 112 ∷ 97 ∷ 103 ∷ 101 ∷ 115 ∷ 105 ∷ 122 ∷ 101 ∷ 58 ∷ 32 ∷ 50 ∷ 48 ∷ 52
    ∷ 56 ∷ 32 ∷ 107 ∷ 66 ∷ []

abbrev huge_name : Text
huge_name =
    104 ∷ 117 ∷ 103 ∷ 101 ∷ 112 ∷ 97 ∷ 103 ∷ 101 ∷ 115 ∷ 45 ∷ 49 ∷ 48 ∷ 50 ∷ 52 ∷ 107 ∷ 66 ∷ []

abbrev host : Answer → Host
host mapped = record {
  reply = replies mapped;
  apple = false;
  linux = true;
  windows = false;
  page_size = 4096;
  system_allocation_granularity = 65536;
  large_page_minimum = 0;
  file_system = λ d. none;
  meminfo = some meminfo;
  huge_page_names = some (huge_name ∷ []);
  draw = λ i. 10;
  canonical = some;
  temp_directory = 47 ∷ 116 ∷ [];
}

-- The name "/a".
abbrev pub name : Text
name = 47 ∷ 97 ∷ []

abbrev config : SegmentConfig
config = record { method = posix_mmap name false; size = 5000 }

abbrev pub h : Host
h = host (value 65536)

segment_balanced_example :
    (let (s, l') = make_segment h config [] in
      let (b, l'') = end_segment h s l' in
      acquired (mapping 65536) l'' + 0 ≡ 0 + released (mapping 65536) l'')
segment_balanced_example =
    segment_balanced h config (mapping 65536) []
      (λ e. absurd (omega (arith, e)), λ e. absurd (omega (arith, e))) refl

mapped_once :
    (let (s, l') = make_segment h config [] in
      let (b, l'') = end_segment h s l' in released (mapping 65536) l'')
    ≡ 1
unfolding make_segment end_segment create_posix_mmap_shmem create_posix_shmem round_up_or_check_size
    mmap_mapping end_mmap_shmem
mapped_once = refl

is_mapped : is_valid (make_segment h config []).0 ≡ true
unfolding make_segment is_valid create_posix_mmap_shmem create_posix_shmem round_up_or_check_size
    mmap_mapping
is_mapped = refl

make_segment-size_example :
    (5000 ≤ segment_size (make_segment h config []).0) × (spec (make_segment h config []).0 ≢ none)
make_segment-size_example = make_segment-size h config [] (omega arith) is_mapped

rounds_up : round_up_or_check_size 5000 4096 ≡ some 8192
unfolding round_up_or_check_size
rounds_up = refl

make_segment_unmapped_example :
    is_valid
      (make_segment (host failure) (record { method = posix_mmap name false; size = 5000 }) []).0
    ≡ true
make_segment_unmapped_example =
    make_segment_unmapped (host failure) name false 5000 8192 3 [] refl refl rounds_up (omega arith)
      (λ l. refl) (λ l. refl) (λ l. refl)

abbrev m : Mapping
m = record { siz = 8192; addr = 65536 }

move_construct_unmapped_example :
    (let ((new, old), l') = move_construct h m [] in
      let (b, l'') = unmap h new l' in
      (new ≡ m)
      × (old ≡ no_mapping)
      × (released (mapping 65536) l' ≡ 1)
      × (released (mapping 65536) l'' ≡ 2))
move_construct_unmapped_example = move_construct_unmapped h m [] (λ e. cc e)

huge_page_sizes_lem_example :
    IsSorted (huge_page_sizes h)
    × (count 1048576 (huge_page_sizes h) ≡ (
        if 1048576 == 0
        then 0
        else if 1048576 == default_huge_page_size h
        then 1
        else names_of 1048576 (huge_name ∷ [])))
huge_page_sizes_lem_example = huge_page_sizes_lem h 1048576

sizes : huge_page_sizes h ≡ 1048576 ∷ 2097152 ∷ []
unfolding huge_page_sizes skip_blanks digits
sizes = refl

abbrev args : CliArgs
args = record {
  memory = 1048576;
  socket = name;
  name = name;
  filename = [];
  posix = false;
  systemv = false;
  windows = false;
  granularity = 4096;
  huge_pages = false;
  huge_page_size = 0;
  large_pages = false;
  force = false;
  voucher_ttl = pos 1000000000;
}

abbrev pub accepted_config : DaemonConfig
accepted_config = record {
  endpoint = name;
  seg_config = record { method = posix_mmap name false; size = 1048576 };
  log2_granularity = 12;
  voucher_ttl = 1000;
}

accepts : validate_cli_args false args ≡ expected accepted_config
unfolding validate_cli_args validate_posix_shmem_name
accepts = refl

validate_cli_args-IsAccepted_example : IsAccepted false args accepted_config
validate_cli_args-IsAccepted_example =
    validate_cli_args-IsAccepted false args accepted_config (omega arith) accepts

-- A name with a backslash too many is taken with a file.
abbrev file_args : CliArgs
file_args = record args { filename = name }

-- ===== src/Cli/Config/Sound.antt =====
-- daemon/cli.cpp: what the configurations of the daemon are that the command line accepts.
use mathlib.Core.Path.{subst}
use partake.Prelude.{
  ℕ, ◌^◌, ◌≡◌, ◌≢◌, ◌<◌, ◌≤◌, ◌==◌, Bool, true, false, [], arith, refl, ◌⊎◌, Bool-cases, inl, inr,
}
use partake.Segment.{SegmentConfig}
use partake.Cli.Names.{expected, ◌>>=◌, >>=-eq-expected, expected_inj}
use partake.Cli.Config.{
  CliArgs, is_given, DaemonConfig, validate_granularity, validate_ttl, validate_segment_config,
  validate_cli_args,
}
use partake.Cli.Config.Accepted.{IsSound, validate_segment_config-IsSound, given_ne_nil}
use partake.Cli.Config.Granularity.{validate_granularity-accepted}

-- The memory and the socket are given; the granularity is none, or a power of 2 that is at least
-- 512, by its logarithm; and the segment is as the options say.
pub record IsAccepted (is_windows : Bool) (args : CliArgs) (config : DaemonConfig) : Type 0 where
  needed : 0 < config.seg_config.size
  pub asked : config.seg_config.size ≡ args.memory
  pub named : config.endpoint ≢ []
  pub same : config.endpoint ≡ args.socket
  granular :
      ((args.granularity ≡ 0) × (config.log2_granularity ≡ 0))
      ⊎ ((args.granularity ≡ 2 ^ config.log2_granularity) × (9 ≤ config.log2_granularity))
  pub segment : IsSound is_windows config.seg_config.method

module _ (is_windows : Bool) (args : CliArgs) (small : args.granularity < 2 ^ 64)
    (memory : (args.memory == 0) ≡ false) (socket : is_given args.socket ≡ true) where
  abbrev made : ℕ → ℕ → SegmentConfig → DaemonConfig
  made gran ttl seg = record {
    endpoint = args.socket;
    seg_config = seg;
    log2_granularity = gran;
    voucher_ttl = ttl;
  }

  accepted :
      (config : DaemonConfig)
      → (do
        gran ← validate_granularity args.granularity
        ttl ← validate_ttl args.voucher_ttl
        seg ← validate_segment_config is_windows args
        expected (made gran ttl seg))
        ≡ expected config
      → IsAccepted is_windows args config
  accepted config e =
      let (gran, g, e1) =
        >>=-eq-expected (validate_granularity args.granularity)
          (λ gran. validate_ttl args.voucher_ttl >>= λ ttl.
            validate_segment_config is_windows args >>= λ seg. expected (made gran ttl seg))
          e in
      let (ttl, t, e2) =
        >>=-eq-expected (validate_ttl args.voucher_ttl)
          (λ ttl. validate_segment_config is_windows args >>= λ seg. expected (made gran ttl seg))
          e1 in
      let (seg, s, e3) =
        >>=-eq-expected (validate_segment_config is_windows args)
          (λ seg. expected (made gran ttl seg)) e2 in
      let (size, sound) = validate_segment_config-IsSound is_windows args seg s in
      subst (IsAccepted is_windows args) (expected_inj e3) (record {
        needed = ground (arith, size, memory);
        asked = size;
        named = given_ne_nil args.socket socket;
        same = refl;
        granular = validate_granularity-accepted args.granularity gran small g;
        segment = sound;
      })

-- The configurations that the command line accepts have a size that is not 0 and the one asked for,
-- a socket, no granularity or a power of 2 that is at least 512, with its exact logarithm, and a
-- segment whose names have the form that the system wants, except the name of a mapping of a file
-- on Windows.
pub validate_cli_args-IsAccepted :
    (is_windows : Bool) (args : CliArgs) (config : DaemonConfig)
    → args.granularity < 2 ^ 64
    → validate_cli_args is_windows args ≡ expected config
    → IsAccepted is_windows args config
unfolding validate_cli_args
validate_cli_args-IsAccepted is_windows args config small e = elim (Bool-cases (args.memory == 0)) [
  | inl m ↦ absurd (ground (arith, e, m))
  | inr m ↦ elim (Bool-cases (is_given args.socket)) [
    | inl s ↦ accepted is_windows args small m s config (rw (m, s) at e)
    | inr s ↦ absurd (ground (arith, e, m, s))
  ]
]

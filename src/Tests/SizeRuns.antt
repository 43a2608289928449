-- ===== src/Tests/SizeRuns.antt =====
-- daemon/sizes.cpp, daemon/cli.cpp and daemon/token_hash_table.hpp on small inputs.
use partake.Prelude.{◌*◌, ◌^◌, ◌≤◌, ◌<◌, ◌≡◌, refl, true, [], ◌∷◌, some, arith, ltb, if◌then◌else◌}
use partake.Sizes.{round_up_or_check_size}
use partake.TokenHashTable.{rehash_if_appropriate, rehash_steady}
use partake.Text.{skip_blanks, digits}
use partake.Cli.{
  parse_size_suffix, stoll, number, multiplier, size_value, size_error, size_too_large,
  parse_size_suffix-exact,
}

rounds : round_up_or_check_size 5000 4096 ≡ some 8192
unfolding round_up_or_check_size
rounds = refl

-- "12M"
twelve : stoll (49 ∷ 50 ∷ 77 ∷ []) ≡ number 12 (77 ∷ [])
unfolding stoll skip_blanks digits
twelve = refl

mega : multiplier (77 ∷ []) ≡ some (2 ^ 20)
unfolding multiplier
mega = refl

parse_size_suffix-exact_example :
    parse_size_suffix (49 ∷ 50 ∷ 77 ∷ [])
    ≡ (if ltb (12 * 2 ^ 20) (2 ^ 64) then size_value (12 * 2 ^ 20) else size_error size_too_large)
parse_size_suffix-exact_example =
    parse_size_suffix-exact (49 ∷ 50 ∷ 77 ∷ []) (77 ∷ []) 12 (2 ^ 20) twelve mega

grows : 2 ^ 3 < rehash_if_appropriate true (2 ^ 3) 13
unfolding rehash_if_appropriate
grows = omega arith

shrinks : rehash_if_appropriate true (2 ^ 5) 3 < 2 ^ 5
unfolding rehash_if_appropriate
shrinks = omega arith

rehash_steady_example :
    (2 ^ 3 < rehash_if_appropriate true (2 ^ 3) 13
      → rehash_if_appropriate true (2 ^ 3) 13
        ≤ rehash_if_appropriate true (rehash_if_appropriate true (2 ^ 3) 13) 13)
    × (rehash_if_appropriate true (2 ^ 3) 13 < 2 ^ 3
        → rehash_if_appropriate true (rehash_if_appropriate true (2 ^ 3) 13) 13
          ≤ rehash_if_appropriate true (2 ^ 3) 13)
rehash_steady_example = rehash_steady 3 13 true (omega arith)

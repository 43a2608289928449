-- ===== src/KeySequence.antt =====
-- daemon/key_sequence.hpp: the xorshift sequence from which object and voucher keys are taken.
use partake.Prelude.{ℕ, ◌*◌, ◌/◌, ◌%◌, ◌^◌, bit_xor}

abbrev word : ℕ
word = 2 ^ 64

-- The value before the first key.
abbrev pub initial : ℕ
initial = 0xffff_ffff_ffff_ffff

-- `t ^= t << k` and `t ^= t >> k`, on 64 bits.
unfoldable xor_shift_left : ℕ → ℕ → ℕ
xor_shift_left t k = bit_xor t (t * 2 ^ k % word)

unfoldable xor_shift_right : ℕ → ℕ → ℕ
xor_shift_right t k = bit_xor t (t / 2 ^ k)

-- The next key, which is also the next state.
unfoldable pub generate : ℕ → ℕ
unfolding xor_shift_left xor_shift_right
generate prev = xor_shift_left (xor_shift_right (xor_shift_left prev 13) 7) 17

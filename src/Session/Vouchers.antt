-- ===== src/Session/Vouchers.antt =====
-- daemon/voucher.hpp: how often a voucher can be claimed.
use partake.Prelude.{
  if◌then◌else◌, leb, ℕ, zero, suc, ◌-◌, ◌≤◌, ◌<◌, ◌≡◌, refl, Bool, true, Option, none, some, ltb,
  leb, arith, Bool-cases, inl, inr, ◌∙◌, ap,
}
use partake.Session.{Voucher, is_valid, claim_once, claim}

-- So many claims at the same time, of which none fails.
abbrev pub claim_times : ℕ → ℕ → Voucher → Option Voucher
claim_times zero now v = some v
claim_times (suc k) now v = elim (claim_once now v) [ none ↦ none | some v' ↦ claim_times k now v' ]

module _ (now : ℕ) (v : Voucher) (h : now ≤ v.expiry) where
  abbrev left : ℕ → Bool → Voucher
  left n b = record v { count = n; queued = b }

  claim_once-some :
      (n : ℕ) (b : Bool)
      → 0 < n
      → b ≡ true
      → claim_once now (left n b) ≡ some (left (n - 1) (ltb 0 (n - 1)))
  unfolding claim_once
  claim_once-some n b p q =
      let valid : is_valid (left n b) now ≡ true = ground arith in
      let in_time : leb now v.expiry ≡ true = ground arith in
      rw (valid, q, in_time) (ap (λ x. some (left (n - 1) x)) (ground arith))

  claim_times-go :
      (k n : ℕ) (b : Bool)
      → b ≡ ltb 0 n
      → k ≤ n
      → claim_times k now (left n b) ≡ some (left (n - k) (ltb k n))
  claim_times-go zero n b e le = let all : n - 0 ≡ n = omega arith in rw (all, e) refl
  claim_times-go (suc k) n b e le =
      let less : n - 1 - k ≡ n - suc k = omega arith in
      let last : ltb k (n - 1) ≡ ltb (suc k) n = ground arith in
      rw (claim_times, claim_once-some n b (omega arith) (ground arith))
        (claim_times-go k (n - 1) (ltb 0 (n - 1)) refl (omega arith) ∙ rw (less, last) refl)

-- A voucher that is in the queue and has not expired can be claimed as often as its count says.
-- Each claim takes one from the count, and the last takes the voucher out of the queue.
claim_times-some :
    (k now : ℕ) (v : Voucher)
    → now ≤ v.expiry
    → v.queued ≡ true
    → 0 < v.count
    → k ≤ v.count
    → claim_times k now v ≡ some (record v { count = v.count - k; queued = ltb k v.count })
claim_times-some k now v h q p le = claim_times-go now v h k v.count v.queued (ground arith) le

-- A voucher cannot be claimed more often than its count says, whether it is in the queue or not.
claim_times-none : (k now : ℕ) (v : Voucher) → v.count < k → claim_times k now v ≡ none
unfolding claim_once
claim_times-none zero now v h = absurd (omega arith)
claim_times-none (suc k) now v h = elim (Bool-cases (is_valid v now)) [
  | inl e ↦ rw (claim_times, e) (claim_times-none k now (claim now v) (ground arith))
  | inr e ↦ rw (claim_times, e) refl
]

-- A voucher that is in the queue and has not expired can be claimed exactly as often as its count
-- says. Each claim takes one from the count, and the last takes the voucher out of the queue.
pub claim_times_lem :
    (k now : ℕ) (v : Voucher)
    → now ≤ v.expiry
    → v.queued ≡ true
    → 0 < v.count
    → claim_times k now v ≡ (
        if leb k v.count
        then some (record v { count = v.count - k; queued = ltb k v.count })
        else none)
claim_times_lem k now v h q p = elim (Bool-cases (leb k v.count)) [
  | inl e ↦ simp e (claim_times-some k now v h q p (ground arith))
  | inr e ↦ simp e (claim_times-none k now v (ground arith))
]

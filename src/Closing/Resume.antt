-- ===== src/Closing/Resume.antt =====
-- What the requests that wait for an object to be shared do to it when they are resumed.
use mathlib.Core.Path.{fun_ext}
use partake.Prelude.{
  ℕ, suc, ◌+◌, ◌≡◌, refl, Bool, true, false, List, [], ◌∷◌, ◌++◌, map, append_assoc, append-nil,
  arith, ◌==◌, if◌then◌else◌, Bool-cases, inl, inr, length, sym, ◌∙◌,
}
use partake.Protocol.{no_such_object}
use partake.Object.{
  Cell, Reply, opened, failed, opens, waits_share, waits_unique, owner, present, resume_open,
  resume_opens,
}
use partake.Object.Handles.{
  count_open, waits_share-set_opens, waits_unique-set_opens, owner-set_opens, present-set_opens,
}
use partake.Closing.Invariant.{opens-handle_open, counted-handle_open}

-- The response to an Open request that is resumed.
abbrev pub answer : Cell → ℕ → ℕ → Reply
answer c i seqno =
    if c.obj.shared
    then opened (owner i c.obj.handles) seqno c.obj.key
    else failed (owner i c.obj.handles) seqno no_such_object

-- How often the object is opened by so many requests.
abbrev pub gain : Bool → ℕ → ℕ
gain true n = n
gain false n = 0

-- From `c` to `c'`, through handle `i`: `n` requests were answered, and nothing else changed.
pub record Resumed (i n : ℕ) (c c' : Cell) : Type 0 where
  pub same_shared : c'.obj.shared ≡ c.obj.shared
  pub same_policy : c'.obj.policy ≡ c.obj.policy
  pub same_key : c'.obj.key ≡ c.obj.key
  pub same_vouchers : c'.obj.n_vouchers ≡ c.obj.n_vouchers
  pub same_writer : c'.obj.exc_writer ≡ c.obj.exc_writer
  pub same_list : c'.obj.awaiting_share ≡ c.obj.awaiting_share
  pub same_unique : c'.obj.awaiting_unique ≡ c.obj.awaiting_unique
  pub same_fault : c'.env.fault ≡ c.env.fault
  pub same_count : c.obj.shared ≡ false → c'.obj.n_open_handles ≡ c.obj.n_open_handles
  pub counts :
      c.obj.n_open_handles ≡ count_open c.obj.handles
      → c'.obj.n_open_handles ≡ count_open c'.obj.handles
  pub opens_at :
      (j : ℕ)
      → opens j c'.obj.handles
        ≡ (if j == i then opens i c.obj.handles + gain c.obj.shared n else opens j c.obj.handles)
  pub unique_at : (j : ℕ) → waits_unique j c'.obj.handles ≡ waits_unique j c.obj.handles
  pub owner_at : (j : ℕ) → owner j c'.obj.handles ≡ owner j c.obj.handles
  pub present_at : (j : ℕ) → present j c'.obj.handles ≡ present j c.obj.handles

resume_open-Resumed :
    (i seqno : ℕ) (c : Cell)
    → present i c.obj.handles ≡ true
    → Resumed i 1 c (resume_open i seqno c)
      × ((j : ℕ) → waits_share j (resume_open i seqno c).obj.handles ≡ waits_share j c.obj.handles)
      × ((resume_open i seqno c).env.sent ≡ c.env.sent ++ answer c i seqno ∷ [])
unfolding resume_open
resume_open-Resumed i seqno c there = elim (Bool-cases c.obj.shared) [
  | inr closed ↦ rw closed (
    record {
      same_shared = refl;
      same_policy = refl;
      same_key = refl;
      same_vouchers = refl;
      same_writer = refl;
      same_list = refl;
      same_unique = refl;
      same_fault = refl;
      same_count = λ e. refl;
      counts = λ e. e;
      opens_at = λ j. ground arith;
      unique_at = λ j. refl;
      owner_at = λ j. refl;
      present_at = λ j. refl;
    },
    λ j. refl,
    refl,
  )
  | inl open' ↦ rw open' (
    record {
      same_shared = refl;
      same_policy = refl;
      same_key = refl;
      same_vouchers = refl;
      same_writer = refl;
      same_list = refl;
      same_unique = refl;
      same_fault = refl;
      same_count = λ e. absurd (ground arith);
      counts = counted-handle_open i c there;
      opens_at = λ j. ground (arith, opens-handle_open i c there j);
      unique_at = λ j. waits_unique-set_opens i j _ c.obj.handles;
      owner_at = λ j. owner-set_opens i j _ c.obj.handles;
      present_at = λ j. present-set_opens i j _ c.obj.handles;
    },
    λ j. waits_share-set_opens i j _ c.obj.handles,
    refl,
  )
]

-- One request after the other.
Resumed-trans :
    (i m n : ℕ) {b c d : Cell} → Resumed i m b c → Resumed i n c d → Resumed i (m + n) b d
Resumed-trans i m n p q = record {
  same_shared = q.same_shared ∙ p.same_shared;
  same_policy = q.same_policy ∙ p.same_policy;
  same_key = q.same_key ∙ p.same_key;
  same_vouchers = q.same_vouchers ∙ p.same_vouchers;
  same_writer = q.same_writer ∙ p.same_writer;
  same_list = q.same_list ∙ p.same_list;
  same_unique = q.same_unique ∙ p.same_unique;
  same_fault = q.same_fault ∙ p.same_fault;
  same_count = λ e. q.same_count (p.same_shared ∙ e) ∙ p.same_count e;
  counts = λ e. q.counts (p.counts e);
  opens_at = λ j. ground (arith, q.opens_at j, p.opens_at j, p.opens_at i, p.same_shared);
  unique_at = λ j. q.unique_at j ∙ p.unique_at j;
  owner_at = λ j. q.owner_at j ∙ p.owner_at j;
  present_at = λ j. q.present_at j ∙ p.present_at j;
}

pub answer-Resumed :
    (i n k seqno : ℕ) {c d : Cell} → Resumed i n c d → answer d k seqno ≡ answer c k seqno
answer-Resumed i n k seqno p = ground (arith, p.same_shared, p.same_key, p.owner_at k)

pub resume_opens-Resumed :
    (i : ℕ) (seqnos : List ℕ) (c : Cell)
    → present i c.obj.handles ≡ true
    → Resumed i (length seqnos) c (resume_opens i seqnos c)
      × ((j : ℕ)
          → waits_share j (resume_opens i seqnos c).obj.handles ≡ waits_share j c.obj.handles)
      × ((resume_opens i seqnos c).env.sent ≡ c.env.sent ++ map (answer c i) seqnos)
unfolding resume_opens
resume_opens-Resumed i [] c there = (
  record {
    same_shared = refl;
    same_policy = refl;
    same_key = refl;
    same_vouchers = refl;
    same_writer = refl;
    same_list = refl;
    same_unique = refl;
    same_fault = refl;
    same_count = λ e. refl;
    counts = λ e. e;
    opens_at = λ j. ground arith;
    unique_at = λ j. refl;
    owner_at = λ j. refl;
    present_at = λ j. refl;
  },
  λ j. refl,
  sym (append-nil c.env.sent),
)
resume_opens-Resumed i (seqno ∷ seqnos) c there =
    let (p, same, said) = resume_open-Resumed i seqno c there in
    let d = resume_open i seqno c in
    let (q, same', said') = resume_opens-Resumed i seqnos d (p.present_at i ∙ there) in
    let answers : answer d i ≡ answer c i = fun_ext λ s. answer-Resumed i 1 i s p in
    (
      rw (add_one (length seqnos)) at (Resumed-trans i 1 (length seqnos) p q),
      λ j. same' j ∙ same j,
      said'
          ∙ rw (said, answers)
              (append_assoc c.env.sent (answer c i seqno ∷ []) (map (answer c i) seqnos)),
    )
  where
    add_one : (n : ℕ) → 1 + n ≡ suc n
    add_one n = omega arith

-- ===== src/Closing/Settle.antt =====
-- daemon/proper_object.hpp and daemon/handle.hpp: what happens to the request that waits for unique
-- ownership when the number of users of an object changes.
use partake.Prelude.{
  ℕ, ◌<◌, ◌≡◌, refl, true, false, not, Option, none, some, arith, Bool-cases, ◌⊎◌, inl, inr, ◌∙◌,
}
use partake.Protocol.{default, primitive}
use partake.Object.{
  Cell, opens, waits_share, waits_unique, set_waits_unique, on_obj, do_unshare, resume_unshare,
  is_set, is_empty, is_id, contains, is_open_uniquely, resume_request_pending_on_unique,
}
use partake.Object.Handles.{
  count_open, opens-set_waits_unique, waits_share-set_waits_unique, waits_unique-set_waits_unique,
  count_open-set_waits_unique, waits_unique-present,
}
use partake.Closing.{wakes, forget_awaiting_unique}
use partake.Closing.Invariant.{IsValid, Distinct}

-- A valid object whose waiting Unshare request may be due.
pub record Unsettled (c : Cell) : Type 0 where
  pub sound : c.env.fault ≡ false
  pub counted : c.obj.n_open_handles ≡ count_open c.obj.handles
  pub written :
      (w : ℕ)
      → c.obj.exc_writer ≡ some w
      → (0 < opens w c.obj.handles) × (c.obj.n_open_handles ≡ 1) × (c.obj.shared ≡ false)
  pub writable :
      c.obj.policy ≡ default
      → c.obj.shared ≡ false
      → 0 < c.obj.n_open_handles
      → is_set c.obj.exc_writer ≡ true
  pub waiting :
      (j : ℕ) → contains j c.obj.awaiting_share ≡ not (is_empty (waits_share j c.obj.handles))
  pub once : Distinct c.obj.awaiting_share
  pub blocked :
      is_empty c.obj.awaiting_share ≡ false
      → (c.obj.shared ≡ false) × (is_set c.obj.exc_writer ≡ true)
  pub reserved : (j : ℕ) → is_set (waits_unique j c.obj.handles) ≡ is_id j c.obj.awaiting_unique
  pub pending : (w : ℕ) → c.obj.awaiting_unique ≡ some w → c.obj.shared ≡ true
  pub plain : c.obj.policy ≡ primitive → (c.obj.shared ≡ false) × (c.obj.exc_writer ≡ none)

pub Unsettled-IsValid :
    {c : Cell}
    → Unsettled c
    → ((w : ℕ)
        → c.obj.awaiting_unique ≡ some w
        → (0 < opens w c.obj.handles) × (wakes c.obj w ≡ false))
    → IsValid c
Unsettled-IsValid u p = record {
  sound = u.sound;
  counted = u.counted;
  written = u.written;
  writable = u.writable;
  waiting = u.waiting;
  once = u.once;
  blocked = u.blocked;
  reserved = u.reserved;
  pending = λ w e. (u.pending w e, (p w e).0, (p w e).1);
  plain = u.plain;
}

pub IsValid-Unsettled : {c : Cell} → IsValid c → Unsettled c
IsValid-Unsettled v = record {
  sound = v.sound;
  counted = v.counted;
  written = v.written;
  writable = v.writable;
  waiting = v.waiting;
  once = v.once;
  blocked = v.blocked;
  reserved = v.reserved;
  pending = λ w e. (v.pending w e).0;
  plain = v.plain;
}

-- A shared object has no exclusive writer.
pub unwritten : {c : Cell} → Unsettled c → c.obj.shared ≡ true → is_set c.obj.exc_writer ≡ false
unwritten {c} u e = go c.obj.exc_writer refl
  where
    go : (o : Option ℕ) → c.obj.exc_writer ≡ o → is_set c.obj.exc_writer ≡ false
    go none h = rw h refl
    go (some x) h = ground (arith, u.written x h)

module _ (w : ℕ) (c : Cell) (u : Unsettled c) (waits : c.obj.awaiting_unique ≡ some w) where
  reserved-none : (j : ℕ) → is_set (waits_unique j (set_waits_unique w none c.obj.handles)) ≡ false
  reserved-none j = ground (
    arith,
    waits_unique-set_waits_unique w j none c.obj.handles,
    u.reserved j,
    u.reserved w,
    waits_unique-present w c.obj.handles,
  )

  -- A resumed Unshare request leaves the object valid, whether it succeeds or fails.
  resume_unshare-IsValid :
      (seqno : ℕ)
      → IsValid (
          on_obj
            (λ o. record o { handles = set_waits_unique w none o.handles; awaiting_unique = none })
            (resume_unshare w seqno c))
  unfolding resume_unshare do_unshare
  resume_unshare-IsValid seqno = elim (Bool-cases (is_open_uniquely w c.obj)) [
    | inl e ↦ rw e record {
      sound = ground (arith, u.sound, u.pending w waits, unwritten u (u.pending w waits));
      counted = ground (arith, count_open-set_waits_unique w none c.obj.handles, u.counted);
      written = λ x h. ground (arith, opens-set_waits_unique w x none c.obj.handles);
      writable = λ p s h. refl;
      waiting =
          λ j. ground (arith, u.waiting j, waits_share-set_waits_unique w j none c.obj.handles);
      once = u.once;
      blocked = λ h. (refl, refl);
      reserved = reserved-none;
      pending = λ x h. ground arith;
      plain = λ p. ground (arith, u.plain p, u.pending w waits);
    }
    | inr e ↦ rw e record {
      sound = u.sound;
      counted = ground (arith, count_open-set_waits_unique w none c.obj.handles, u.counted);
      written = λ x h. ground (arith, opens-set_waits_unique w x none c.obj.handles, u.written x h);
      writable = u.writable;
      waiting =
          λ j. ground (arith, u.waiting j, waits_share-set_waits_unique w j none c.obj.handles);
      once = u.once;
      blocked = u.blocked;
      reserved = reserved-none;
      pending = λ x h. ground arith;
      plain = u.plain;
    }
  ]

  -- So does the function that resumes it, after or before the object forgets the handle.
  pub resume-then-forget-IsValid :
      IsValid (on_obj forget_awaiting_unique (resume_request_pending_on_unique w c))
  unfolding resume_request_pending_on_unique
  resume-then-forget-IsValid = go (waits_unique w c.obj.handles) refl
    where
      go :
          (o : Option ℕ)
          → waits_unique w c.obj.handles ≡ o
          → IsValid (on_obj forget_awaiting_unique (resume_request_pending_on_unique w c))
      go none e = absurd (ground (arith, u.reserved w))
      go (some seqno) e = rw (resume_request_pending_on_unique, e) (resume_unshare-IsValid seqno)

  pub forget-then-resume-IsValid :
      IsValid (resume_request_pending_on_unique w (on_obj forget_awaiting_unique c))
  unfolding resume_request_pending_on_unique resume_unshare do_unshare
  forget-then-resume-IsValid = go (waits_unique w c.obj.handles) refl
    where
      same :
          (seqno : ℕ)
          → is_open_uniquely w c.obj ≡ true ⊎ is_open_uniquely w c.obj ≡ false
          → resume_unshare w seqno (on_obj forget_awaiting_unique c)
            ≡ on_obj forget_awaiting_unique (resume_unshare w seqno c)
      same seqno (inl e) = rw e refl
      same seqno (inr e) = rw e refl

      go :
          (o : Option ℕ)
          → waits_unique w c.obj.handles ≡ o
          → IsValid (resume_request_pending_on_unique w (on_obj forget_awaiting_unique c))
      go none e = absurd (ground (arith, u.reserved w))
      go (some seqno) e =
          rw
            (
              resume_request_pending_on_unique,
              e,
              same seqno (Bool-cases (is_open_uniquely w c.obj)),
            )
            (resume_unshare-IsValid seqno)

-- A resumed Unshare request opens and closes nothing.
opens-resume_unshare :
    (w seqno j : ℕ) (c : Cell)
    → opens j (resume_unshare w seqno c).obj.handles ≡ opens j c.obj.handles
unfolding resume_unshare do_unshare
opens-resume_unshare w seqno j c = elim (Bool-cases (is_open_uniquely w c.obj)) [
  | inl e ↦ rw e refl
  | inr e ↦ rw e refl
]

pub opens-resume_request :
    (w j : ℕ) (c : Cell)
    → opens j (resume_request_pending_on_unique w c).obj.handles ≡ opens j c.obj.handles
unfolding resume_request_pending_on_unique
opens-resume_request w j c = go (waits_unique w c.obj.handles) refl
  where
    go :
        (o : Option ℕ)
        → waits_unique w c.obj.handles ≡ o
        → opens j (resume_request_pending_on_unique w c).obj.handles ≡ opens j c.obj.handles
    go none e = rw (resume_request_pending_on_unique, e) refl
    go (some seqno) e =
        rw (resume_request_pending_on_unique, e)
          (opens-set_waits_unique w j none (resume_unshare w seqno c).obj.handles
            ∙ opens-resume_unshare w seqno j c)

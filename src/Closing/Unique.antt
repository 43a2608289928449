-- ===== src/Closing/Unique.antt =====
-- The steps of `proper_object::close`: the request that waits for unique ownership, and the
-- exclusive writer.
use partake.Prelude.{
  ℕ, ◌≡◌, refl, Bool, true, false, ◌||◌, Option, none, some, arith, ◌==◌, if◌then◌else◌, Bool-cases,
  inl, inr,
}
use partake.Object.{Cell, opens, on_obj, assert, is_id, resume_request_pending_on_unique}
use partake.Closing.{wakes, forget_awaiting_unique, close_unique, close_writer, drain}
use partake.Closing.Settle.{Unsettled, opens-resume_request}

pub assert-Unsettled :
    {c : Cell} {cond : Bool} → Unsettled c → cond ≡ true → Unsettled (assert cond c)
assert-Unsettled u e = record {
  sound = ground (arith, u.sound);
  counted = u.counted;
  written = u.written;
  writable = u.writable;
  waiting = u.waiting;
  once = u.once;
  blocked = u.blocked;
  reserved = u.reserved;
  pending = u.pending;
  plain = u.plain;
}

module _ (i : ℕ) (c : Cell) where
  pub close_unique-none : c.obj.awaiting_unique ≡ none → close_unique i c ≡ c
  unfolding close_unique
  close_unique-none e =
      stays
        (λ w.
          if wakes c.obj w || w == i
          then on_obj forget_awaiting_unique (resume_request_pending_on_unique w c)
          else c)
        c.obj.awaiting_unique e
    where
      stays : (f : ℕ → Cell) (o : Option ℕ) → o ≡ none → elim o [ none ↦ c | some w ↦ f w ] ≡ c
      stays f none k = refl
      stays f (some w) k = absurd (ground arith)

  pub opens-close_unique : (j : ℕ) → opens j (close_unique i c).obj.handles ≡ opens j c.obj.handles
  unfolding close_unique
  opens-close_unique j = go c.obj.awaiting_unique refl
    where
      go :
          (o : Option ℕ)
          → c.obj.awaiting_unique ≡ o
          → opens j (close_unique i c).obj.handles ≡ opens j c.obj.handles
      go none e = rw (close_unique-none e) refl
      go (some w) e =
          rw (close_unique, e)
            (elim (Bool-cases (wakes c.obj w || w == i)) [
              | inl k ↦ rw k (opens-resume_request w j c)
              | inr k ↦ rw k refl
            ])

  pub close_writer_self :
      is_id i c.obj.exc_writer ≡ true
      → close_writer i c
        ≡ drain c.obj.awaiting_share
            (assert (c.obj.n_open_handles == 0) (on_obj (λ o. record o { exc_writer = none }) c))
  unfolding close_writer
  close_writer_self e = rw e refl

  pub close_writer_other : is_id i c.obj.exc_writer ≡ false → close_writer i c ≡ c
  unfolding close_writer
  close_writer_other e = rw e refl

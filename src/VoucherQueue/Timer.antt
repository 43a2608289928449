-- ===== src/VoucherQueue/Timer.antt =====
-- `voucher_queue`: when its timer runs.
use partake.Prelude.{
  ℕ, zero, suc, ◌+◌, ◌*◌, ◌≡◌, refl, Bool, true, false, Option, none, some, List, [], ◌∷◌, length,
  arith, Bool-cases, inl, inr, ◌∙◌, ap,
}
use partake.VoucherQueue.{
  Entry, Queue, empty_queue, expiration_extra_delay, top, erase_entry, schedule_expiration, enqueue,
  drop_entry, drop_all, drop_expired, on_timer, is_scheduled_by,
}

-- What happens to the queue.
pub data Reach : Queue → Type 0 where
  started : Reach empty_queue
  enqueued : {q : Queue} (e : Entry) → Reach q → Reach (enqueue e q)
  dropped : {q : Queue} (e : Entry) → Reach q → Reach (drop_entry e q)
  all_dropped : {q : Queue} → Reach q → Reach (drop_all q)
  expired : {q : Queue} (now : ℕ) → Reach q → Reach (on_timer now q)

abbrev pub is_running : Option ℕ → Bool
is_running none = false
is_running (some t) = true

abbrev pub is_nil : List Entry → Bool
is_nil [] = true
is_nil (x ∷ xs) = false

schedule-running : (t : ℕ) (q : Queue) → is_running (schedule_expiration t q).scheduled ≡ true
unfolding schedule_expiration
schedule-running t q = ground arith

entries-schedule : (t : ℕ) (q : Queue) → (schedule_expiration t q).entries ≡ q.entries
unfolding schedule_expiration
entries-schedule t q = ground arith

on_timer-running :
    (now : ℕ) (q : Queue)
    → is_nil (on_timer now q).entries ≡ false
    → is_running (on_timer now q).scheduled ≡ true
unfolding on_timer
on_timer-running now q h = go (drop_expired (length q.entries) now q.entries) refl
  where
    go :
        (es : List Entry)
        → drop_expired (length q.entries) now q.entries ≡ es
        → is_running (on_timer now q).scheduled ≡ true
    go [] e = absurd (ground (arith, rw (on_timer, e) at h))
    go (x ∷ xs) e =
        rw (on_timer, e)
          (schedule-running (top x xs).time (record { entries = x ∷ xs; scheduled = none }))

-- As long as a voucher is in the queue, a timer runs that will look at it.
pub Reach-running : {q : Queue} → Reach q → is_nil q.entries ≡ false → is_running q.scheduled ≡ true
unfolding enqueue drop_entry
Reach-running started h = absurd (ground arith)
Reach-running (enqueued {q = q} e r) h =
    schedule-running e.time (record q { entries = e ∷ q.entries })
Reach-running (dropped {q = q} e r) h = Reach-running r (left q.entries h)
  where
    left : (es : List Entry) → is_nil (erase_entry e es) ≡ false → is_nil es ≡ false
    left [] k = k
    left (x ∷ xs) k = refl
Reach-running (all_dropped r) h = absurd (ground arith)
Reach-running (expired {q = q} now r) h = on_timer-running now q h

-- Vouchers that a client creates twice a second, with the same time to live.
unfoldable pub twice_a_second : ℕ → ℕ → Queue
unfolding enqueue
twice_a_second expiry zero = enqueue (record { time = expiry; voucher = 0 }) empty_queue
twice_a_second expiry (suc n) =
    enqueue (record { time = expiry + 500 * suc n; voucher = suc n }) (twice_a_second expiry n)

grown :
    (expiry n : ℕ)
    → length (twice_a_second expiry (suc n)).entries
      ≡ suc (length (twice_a_second expiry n).entries)
unfolding twice_a_second enqueue schedule_expiration
grown expiry n =
    elim (Bool-cases (is_scheduled_by (expiry + 500 * suc n) (twice_a_second expiry n).scheduled)) [
      | inl e ↦ rw e (ground arith)
      | inr e ↦ rw e (ground arith)
    ]

-- After vouchers created every half second with the same time to live, all are in the queue, and
-- the timer is set for one second after the last of them expires: each puts the timer off, so that
-- the time at which the first is dropped has no bound.
pub timer_postponed :
    (expiry n : ℕ)
    → ((twice_a_second expiry n).scheduled ≡ some (expiry + 500 * n + expiration_extra_delay))
      × (length (twice_a_second expiry n).entries ≡ suc n)
unfolding twice_a_second enqueue schedule_expiration
timer_postponed expiry zero = (ap some (omega arith), refl)
timer_postponed expiry (suc n) =
    let (h, k) = timer_postponed expiry n in (rw h (ground arith), grown expiry n ∙ ap suc k)

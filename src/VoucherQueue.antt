-- ===== src/VoucherQueue.antt =====
-- daemon/voucher_queue.hpp: the queue of the vouchers by their expiration, and its timer. Times are
-- in milliseconds. The heap is the list of its elements, in no order. `scheduled` is `none` for
-- `time_point::max()`, when no timer runs.
pub mod Expiry
pub mod Timer
use partake.Prelude.{
  ℕ, zero, suc, ◌+◌, Bool, true, false, ◌&&◌, not, Option, none, some, List, [], ◌∷◌, ltb, leb,
  ◌==◌, if◌then◌else◌, length,
}

pub record Entry : Type 0 where
  pub time : ℕ
  pub voucher : ℕ

pub record Queue : Type 0 where
  pub entries : List Entry
  pub scheduled : Option ℕ

abbrev pub empty_queue : Queue
empty_queue = record { entries = []; scheduled = none }

abbrev pub expiration_extra_delay : ℕ
expiration_extra_delay = 1000

-- `queue.top()`: of the earliest elements, one.
unfoldable pub top : Entry → List Entry → Entry
top e [] = e
top e (x ∷ xs) = let t = top x xs in if leb e.time t.time then e else t

abbrev pub same_entry : Entry → Entry → Bool
same_entry a b = a.time == b.time && a.voucher == b.voucher

-- `queue.erase(h)`, and with the top `queue.pop()`.
unfoldable pub erase_entry : Entry → List Entry → List Entry
erase_entry e [] = []
erase_entry e (x ∷ xs) = if same_entry e x then xs else x ∷ erase_entry e xs

-- The scheduled time is no later.
abbrev pub is_scheduled_by : ℕ → Option ℕ → Bool
is_scheduled_by expiration none = false
is_scheduled_by expiration (some t) = leb t expiration

unfoldable pub schedule_expiration : ℕ → Queue → Queue
schedule_expiration expiration q =
    if is_scheduled_by expiration q.scheduled
    then q
    else record q { scheduled = some (expiration + expiration_extra_delay) }

unfoldable pub enqueue : Entry → Queue → Queue
unfolding schedule_expiration
enqueue e q = schedule_expiration e.time (record q { entries = e ∷ q.entries })

-- `drop`, of a voucher that is in the queue or not.
unfoldable pub drop_entry : Entry → Queue → Queue
unfolding erase_entry
drop_entry e q = record q { entries = erase_entry e q.entries }

abbrev pub drop_all : Queue → Queue
drop_all q = empty_queue

-- The loop of `drop_expired`, which takes one element a round.
unfoldable pub drop_expired : ℕ → ℕ → List Entry → List Entry
unfolding top erase_entry
drop_expired fuel now [] = []
drop_expired zero now (x ∷ xs) = x ∷ xs
drop_expired (suc fuel) now (x ∷ xs) =
    let t = top x xs in
    let rest = drop_expired fuel now (erase_entry t (x ∷ xs)) in
    if leb t.time now then rest else x ∷ xs

-- The handler of the timer.
unfoldable pub on_timer : ℕ → Queue → Queue
unfolding drop_expired schedule_expiration top
on_timer now q =
    let es = drop_expired (length q.entries) now q.entries in
    elim es [
      | [] ↦ record { entries = []; scheduled = none }
      | x ∷ xs ↦ schedule_expiration (top x xs).time (record { entries = x ∷ xs; scheduled = none })
    ]

-- ===== src/Closing/Waiting.antt =====
-- daemon/handle.hpp: the requests that wait, how they are added and dropped;
-- daemon/proper_object.hpp: the vouchers of an object.
use partake.Prelude.{
  ℕ, ◌<◌, ◌≡◌, refl, true, false, ◌&&◌, ◌||◌, not, Option, none, some, List, [], ◌∷◌, ◌++◌, arith,
  ◌==◌, Bool-cases, inl, inr, sym, ◌∙◌,
}
use partake.Object.{
  Cell, opens, waits_share, waits_unique, present, set_waits_unique, is_set, is_empty, contains,
  without,
}
use partake.Object.Handles.{
  opens-set_waits_share, waits_share-set_waits_share, waits_unique-set_waits_share,
  count_open-set_waits_share, opens-set_waits_unique, waits_share-set_waits_unique,
  waits_unique-set_waits_unique, count_open-set_waits_unique, waits_share-present,
  waits_unique-present,
}
use partake.Closing.{
  wakes, add_request_pending_on_share, set_request_pending_on_unique, drop_share, drop_unique,
  drop_pending_requests,
}
use partake.Closing.Invariant.{IsValid, Distinct}

contains-append : (j i : ℕ) (is : List ℕ) → contains j (is ++ i ∷ []) ≡ contains j is || j == i
unfolding contains
contains-append j i [] = ground arith
contains-append j i (x ∷ is) = ground (arith, contains-append j i is)

Distinct-append :
    (i : ℕ) (is : List ℕ) → contains i is ≡ false → Distinct is → Distinct (is ++ i ∷ [])
unfolding contains
Distinct-append i [] e d = (refl, tt)
Distinct-append i (x ∷ is) e d =
    (ground (arith, contains-append x i is, d.0), Distinct-append i is (ground arith) d.1)

contains-without :
    (j i : ℕ) (is : List ℕ)
    → Distinct is
    → contains j (without i is) ≡ contains j is && not (j == i)
unfolding contains without
contains-without j i [] d = refl
contains-without j i (x ∷ is) d = ground (arith, contains-without j i is d.1, d.0)

Distinct-without : (i : ℕ) (is : List ℕ) → Distinct is → Distinct (without i is)
unfolding contains without
Distinct-without i [] d = tt
Distinct-without i (x ∷ is) d = elim (Bool-cases (i == x)) [
  | inl e ↦ rw e d.1
  | inr e ↦ rw e (ground (arith, contains-without x i is d.1, d.0), Distinct-without i is d.1)
]

is_empty-append : (s : ℕ) (l : List ℕ) → is_empty (l ++ s ∷ []) ≡ false
is_empty-append s [] = refl
is_empty-append s (x ∷ l) = refl

module _ (i seqno : ℕ) (c : Cell) (v : IsValid c) (there : present i c.obj.handles ≡ true) where
  abbrev l : List ℕ
  l = waits_share i c.obj.handles ++ seqno ∷ []

  -- A handle with no request yet may wait for the exclusive writer to share the object.
  pub add_request-IsValid :
      c.obj.shared ≡ false
      → is_set c.obj.exc_writer ≡ true
      → waits_share i c.obj.handles ≡ []
      → IsValid (add_request_pending_on_share i seqno c)
  unfolding add_request_pending_on_share
  add_request-IsValid lock writes quiet = record {
    sound = ground (arith, v.sound, v.waiting i, lock);
    counted = v.counted ∙ sym (count_open-set_waits_share i l c.obj.handles);
    written = λ w e. rw (opens-set_waits_share i w l c.obj.handles) (v.written w e);
    writable = v.writable;
    waiting = λ j. ground (
      arith,
      v.waiting j,
      waits_share-set_waits_share i j l c.obj.handles,
      contains-append j i c.obj.awaiting_share,
      is_empty-append seqno (waits_share i c.obj.handles),
      there,
    );
    once = Distinct-append i c.obj.awaiting_share (ground (arith, v.waiting i)) v.once;
    blocked = λ e. (lock, writes);
    reserved = λ j. rw (waits_unique-set_waits_share i j l c.obj.handles) (v.reserved j);
    pending = λ w e. absurd (ground (arith, v.pending w e, lock));
    plain = v.plain;
  }

  -- An open handle that does not own the shared object alone may wait until it does.
  pub set_request-IsValid :
      0 < opens i c.obj.handles
      → c.obj.shared ≡ true
      → c.obj.awaiting_unique ≡ none
      → wakes c.obj i ≡ false
      → IsValid (set_request_pending_on_unique i seqno c)
  unfolding set_request_pending_on_unique
  set_request-IsValid open' shared' nobody more = record {
    sound = ground (arith, v.sound, v.reserved i);
    counted = v.counted ∙ sym (count_open-set_waits_unique i (some seqno) c.obj.handles);
    written = λ w e. rw (opens-set_waits_unique i w (some seqno) c.obj.handles) (v.written w e);
    writable = v.writable;
    waiting = λ j. rw (waits_share-set_waits_unique i j (some seqno) c.obj.handles) (v.waiting j);
    once = v.once;
    blocked = v.blocked;
    reserved = λ j.
        ground (
          arith,
          waits_unique-set_waits_unique i j (some seqno) c.obj.handles,
          v.reserved j,
          there,
        );
    pending = λ w e. ground (arith, opens-set_waits_unique i w (some seqno) c.obj.handles);
    plain = v.plain;
  }

without-is_empty : (i : ℕ) (is : List ℕ) → is_empty (without i is) ≡ false → is_empty is ≡ false
unfolding without
without-is_empty i [] k = k
without-is_empty i (x ∷ is) k = refl

module _ (i : ℕ) (c : Cell) (v : IsValid c) where
  drop_share-IsValid : IsValid (drop_share i c)
  unfolding drop_share
  drop_share-IsValid = elim (Bool-cases (is_empty (waits_share i c.obj.handles))) [
    | inl e ↦ rw e v
    | inr e ↦ rw e record {
      sound = v.sound;
      counted = v.counted ∙ sym (count_open-set_waits_share i [] c.obj.handles);
      written = λ w e. rw (opens-set_waits_share i w [] c.obj.handles) (v.written w e);
      writable = v.writable;
      waiting = λ j. ground (
        arith,
        v.waiting j,
        waits_share-set_waits_share i j [] c.obj.handles,
        contains-without j i c.obj.awaiting_share v.once,
        waits_share-present i c.obj.handles,
      );
      once = Distinct-without i c.obj.awaiting_share v.once;
      blocked = λ k. v.blocked (without-is_empty i c.obj.awaiting_share k);
      reserved = λ j. rw (waits_unique-set_waits_share i j [] c.obj.handles) (v.reserved j);
      pending = λ w k. ground (arith, v.pending w k, opens-set_waits_share i w [] c.obj.handles);
      plain = v.plain;
    }
  ]

  drop_unique-IsValid : IsValid (drop_unique i c)
  unfolding drop_unique
  drop_unique-IsValid = elim (Bool-cases (is_set (waits_unique i c.obj.handles))) [
    | inr e ↦ rw e v
    | inl e ↦ rw e record {
      sound = ground (arith, v.sound, v.reserved i);
      counted = v.counted ∙ sym (count_open-set_waits_unique i none c.obj.handles);
      written = λ w e. rw (opens-set_waits_unique i w none c.obj.handles) (v.written w e);
      writable = v.writable;
      waiting = λ j. rw (waits_share-set_waits_unique i j none c.obj.handles) (v.waiting j);
      once = v.once;
      blocked = v.blocked;
      reserved = λ j. freed j c.obj.awaiting_unique refl e;
      pending = λ w e. ground arith;
      plain = v.plain;
    }
  ]
    where
      freed :
          (j : ℕ) (o : Option ℕ)
          → c.obj.awaiting_unique ≡ o
          → is_set (waits_unique i c.obj.handles) ≡ true
          → is_set (waits_unique j (set_waits_unique i none c.obj.handles)) ≡ false
      freed j o k e = ground (
        arith,
        v.reserved i,
        v.reserved j,
        waits_unique-set_waits_unique i j none c.obj.handles,
        waits_unique-present i c.obj.handles,
      )

pub drop_pending_requests-IsValid :
    (i : ℕ) (c : Cell) → IsValid c → IsValid (drop_pending_requests i c)
unfolding drop_pending_requests
drop_pending_requests-IsValid i c v =
    drop_unique-IsValid i (drop_share i c) (drop_share-IsValid i c v)

-- ===== src/Closing/Writer.antt =====
-- `proper_object::close` for the exclusive writer: those who wait for the object to be shared.
use partake.Prelude.{
  ℕ, ◌-◌, ◌<◌, ◌≡◌, refl, Option, none, some, [], arith, ◌==◌, Bool-cases, inl, inr, ◌∙◌,
}
use partake.Object.{Cell, opens, waits_share, on_obj, assert, contains}
use partake.Object.Handles.{waits_share-set_opens, waits_unique-set_opens}
use partake.Closing.{drain, object_close}
use partake.Closing.Invariant.{IsValid}
use partake.Closing.Woken.{AllWoken}
use partake.Closing.Share.{AllPresent, waiting-AllPresent, is_empty-eq}
use partake.Closing.Drain.{drain-AllWoken, drain-list}
use partake.Closing.Unique.{close_unique-none, close_writer_self}
use partake.Closing.Dropped.{dropped, last, counted-dropped}

module _ (i : ℕ) (c : Cell) (v : IsValid c) (h : 0 < opens i c.obj.handles) where
  -- The exclusive writer closes.
  module _ (one : opens i c.obj.handles ≡ 1) (writes : c.obj.exc_writer ≡ some i) where
    abbrev base : Cell
    base =
        assert ((last i c v h).obj.n_open_handles == 0)
          (on_obj (λ o. record o { exc_writer = none }) (last i c v h))

    abbrev after : Cell
    after = drain (last i c v h).obj.awaiting_share base

    base-AllPresent : AllPresent c.obj.awaiting_share base
    base-AllPresent = waiting-AllPresent base c.obj.awaiting_share λ j e.
        ground
          (arith, v.waiting j, waits_share-set_opens i j (opens i c.obj.handles - 1) c.obj.handles)

    pub woken : AllWoken c.obj.awaiting_share base after
    woken = drain-AllWoken c.obj.awaiting_share base v.once base-AllPresent

    list : after.obj.awaiting_share ≡ []
    list = drain-list c.obj.awaiting_share base base-AllPresent refl

    pub nobody : c.obj.awaiting_unique ≡ none
    nobody = go c.obj.awaiting_unique refl
      where
        go : (o : Option ℕ) → c.obj.awaiting_unique ≡ o → c.obj.awaiting_unique ≡ none
        go none e = e
        go (some u) e = ground (arith, v.pending u e, v.written i writes)

    emptied : (j : ℕ) → waits_share j after.obj.handles ≡ []
    emptied j = elim (Bool-cases (contains j c.obj.awaiting_share)) [
      | inl e ↦ woken.share_at j ∙ rw e refl
      | inr e ↦
          woken.share_at j
          ∙ rw e (
              is_empty-eq (waits_share j base.obj.handles) (
                ground (
                  arith,
                  v.waiting j,
                  waits_share-set_opens i j (opens i c.obj.handles - 1) c.obj.handles,
                )))
    ]

    after-IsValid : IsValid after
    unfolding contains
    after-IsValid = record {
      sound = ground (arith, woken.same_fault, v.sound, v.written i writes);
      counted = woken.counts (ground (arith, v.counted, (counted-dropped i c v h)));
      written = λ u e. absurd (ground (arith, woken.same_writer));
      writable = λ p s h. absurd (ground (arith, woken.same_count, v.written i writes));
      waiting = λ j. rw (list, emptied j) refl;
      once = rw list tt;
      blocked = λ e. absurd (ground (arith, list));
      reserved = λ j.
          rw (woken.unique_at j, woken.same_unique)
            (ground (
              arith,
              v.reserved j,
              waits_unique-set_opens i j (opens i c.obj.handles - 1) c.obj.handles,
            ));
      pending = λ u e. absurd (ground (arith, woken.same_unique, nobody));
      plain = λ p. (woken.same_shared ∙ (v.written i writes).2, woken.same_writer);
    }

    pub writer-IsValid : IsValid (object_close i (dropped i c v h))
    unfolding object_close
    writer-IsValid =
        rw
          (
            close_unique-none i (last i c v h) nobody,
            close_writer_self i (last i c v h) (ground arith),
          )
          after-IsValid

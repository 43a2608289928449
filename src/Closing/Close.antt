-- ===== src/Closing/Close.antt =====
-- `handle::close` and `proper_object::close`: a closed handle wakes those who waited for that, and
-- every assertion of theirs holds.
pub mod Opens
use partake.Prelude.{
  ℕ, zero, suc, ◌+◌, ◌-◌, ◌≤◌, ◌<◌, ◌≡◌, ◌≢◌, refl, Bool, true, false, ◌&&◌, ◌||◌, not, Option,
  none, some, List, [], ◌∷◌, arith, hit, ltb, ◌==◌, if◌then◌else◌, Bool-cases, ◌⊎◌, inl, inr, sym,
  ◌∙◌, ap,
}
use partake.Protocol.{Policy, default, primitive}
use partake.Object.{
  Handle, Object, Cell, opens, waits_share, waits_unique, owner, present, set_opens, on_obj, assert,
  is_set, is_empty, is_id, contains, is_open_uniquely, is_opened_by_unique_handle,
  resume_request_pending_on_unique, resume_requests_pending_on_share,
}
use partake.Object.Handles.{
  count_open, opens-set_opens, waits_share-set_opens, waits_unique-set_opens, count_open-set_opens,
  two_open, opens-le-count, opens-present,
}
use partake.Closing.{
  wakes, forget_awaiting_unique, close_unique, close_writer, drain, object_close, handle_close,
}
use partake.Closing.Invariant.{IsValid, Distinct}
use partake.Closing.Settle.{
  Unsettled, Unsettled-IsValid, opens-resume_request, resume-then-forget-IsValid,
  forget-then-resume-IsValid,
}
use partake.Closing.Woken.{Woken, AllWoken, AllWoken-nil, AllWoken-cons, resume-Woken, answers}
use partake.Closing.Share.{AllPresent, waiting-AllPresent, is_empty-eq}
use partake.Closing.Drain.{drain-AllWoken, drain-list}
use partake.Closing.Unique.{
  assert-Unsettled, close_unique-none, opens-close_unique, close_writer_self, close_writer_other,
}
use partake.Closing.Dropped.{
  there, dropped, last, counted-dropped, kept, dropped-IsValid, last-IsValid,
}
use partake.Closing.Writer.{woken, nobody, writer-IsValid}

module _ (i : ℕ) (c : Cell) (v : IsValid c) (h : 0 < opens i c.obj.handles) where
  pub no_writer :
      opens i c.obj.handles ≡ 1
      → IsValid (close_unique i (last i c v h))
      → (o : Option ℕ) → (close_unique i (last i c v h)).obj.exc_writer ≡ o
      → is_id i (close_unique i (last i c v h)).obj.exc_writer ≡ false
  no_writer one u none e = rw e refl
  no_writer one u (some w) e = ground (
    arith,
    (u.written w e).0,
    opens-close_unique i (last i c v h) i,
    opens-set_opens i i (opens i c.obj.handles - 1) c.obj.handles,
    (there i c v h),
  )

  -- Closing an open handle keeps the object valid: every assertion holds, and whoever it is that
  -- waited for this is resumed.
  pub handle_close-IsValid : IsValid (handle_close i c)
  unfolding handle_close object_close
  handle_close-IsValid = elim (Bool-cases (opens i c.obj.handles == 1)) [
    | inr e ↦ rw e ((dropped-IsValid i c v h) (ground arith))
    | inl e ↦ rw e (go c.obj.exc_writer refl (ground arith))
  ]
    where
      other :
          is_id i c.obj.exc_writer ≡ false
          → opens i c.obj.handles ≡ 1
          → IsValid (object_close i (dropped i c v h))
      other e one =
          let u = (last-IsValid i c v h) one e in
          rw
            (close_writer_other i (close_unique i (last i c v h))
              (no_writer one u (close_unique i (last i c v h)).obj.exc_writer refl))
            u

      go :
          (o : Option ℕ)
          → c.obj.exc_writer ≡ o
          → opens i c.obj.handles ≡ 1
          → IsValid (object_close i (dropped i c v h))
      go none k one = other (ground arith) one
      go (some w) k one = elim (Bool-cases (i == w)) [
        | inl e ↦ (writer-IsValid i c v h) one (k ∙ ap some (ground arith))
        | inr e ↦ other (ground arith) one
      ]

-- ===== src/Closing/Invariant.antt =====
-- What holds of an object and its handles between any two requests.
use partake.Prelude.{
  ℕ, ◌+◌, ◌<◌, ◌≡◌, true, false, not, none, some, List, [], ◌∷◌, arith, ◌==◌, if◌then◌else◌, ◌⊎◌,
}
use partake.Protocol.{default, primitive}
use partake.Object.{
  Cell, opens, waits_share, waits_unique, present, is_set, is_empty, is_id, contains, handle_open,
}
use partake.Object.Handles.{
  count_open, opens-set_opens, waits_share-set_opens, waits_unique-set_opens, count_open-set_opens,
  two_open, opens-le-count,
}
use partake.Closing.{wakes}

abbrev pub Distinct : List ℕ → Type 0
Distinct [] = Unit {0}
Distinct (x ∷ xs) = (contains x xs ≡ false) × Distinct xs

pub record IsValid (c : Cell) : Type 0 where
  -- No assertion has failed.
  pub sound : c.env.fault ≡ false
  -- The count of open handles is right.
  pub counted : c.obj.n_open_handles ≡ count_open c.obj.handles
  -- The exclusive writer is the only open handle, and the object is not shared.
  pub written :
      (w : ℕ)
      → c.obj.exc_writer ≡ some w
      → (0 < opens w c.obj.handles) × (c.obj.n_open_handles ≡ 1) × (c.obj.shared ≡ false)
  -- An object of the default policy that is open and not shared has an exclusive writer.
  pub writable :
      c.obj.policy ≡ default
      → c.obj.shared ≡ false
      → 0 < c.obj.n_open_handles
      → is_set c.obj.exc_writer ≡ true
  -- The list of handles that wait for the object to be shared is that of those with such requests.
  pub waiting :
      (j : ℕ) → contains j c.obj.awaiting_share ≡ not (is_empty (waits_share j c.obj.handles))
  pub once : Distinct c.obj.awaiting_share
  -- Who waits for the object to be shared waits for a writer that may share it.
  pub blocked :
      is_empty c.obj.awaiting_share ≡ false
      → (c.obj.shared ≡ false) × (is_set c.obj.exc_writer ≡ true)
  -- The handle that waits for unique ownership is the one with such a request.
  pub reserved : (j : ℕ) → is_set (waits_unique j c.obj.handles) ≡ is_id j c.obj.awaiting_unique
  -- It is open, and does not yet own the object alone.
  pub pending :
      (w : ℕ)
      → c.obj.awaiting_unique ≡ some w
      → (c.obj.shared ≡ true) × (0 < opens w c.obj.handles) × (wakes c.obj w ≡ false)
  -- An object of the primitive policy is never shared or written exclusively.
  pub plain : c.obj.policy ≡ primitive → (c.obj.shared ≡ false) × (c.obj.exc_writer ≡ none)

module _ (i : ℕ) (c : Cell) (there : present i c.obj.handles ≡ true) where
  -- Opening through one handle changes no other handle.
  pub opens-handle_open :
      (j : ℕ)
      → opens j (handle_open i c).obj.handles
        ≡ (if j == i then opens i c.obj.handles + 1 else opens j c.obj.handles)
  unfolding handle_open
  opens-handle_open j =
      ground (arith, opens-set_opens i j (opens i c.obj.handles + 1) c.obj.handles)

  pub counted-handle_open :
      c.obj.n_open_handles ≡ count_open c.obj.handles
      → (handle_open i c).obj.n_open_handles ≡ count_open (handle_open i c).obj.handles
  unfolding handle_open
  counted-handle_open e =
      ground (arith, count_open-set_opens i (opens i c.obj.handles + 1) c.obj.handles)

  -- Opening an object that is shared, or of the primitive policy, keeps it valid.
  pub handle_open-IsValid :
      IsValid c → (c.obj.policy ≡ primitive) ⊎ (c.obj.shared ≡ true) → IsValid (handle_open i c)
  unfolding handle_open
  handle_open-IsValid v may_open = record {
    sound = v.sound;
    counted = counted-handle_open v.counted;
    written = λ w e. ground (arith, v.written w e, v.plain);
    writable = λ p s h. ground (arith, v.plain);
    waiting = λ j.
        ground
          (arith, v.waiting j, waits_share-set_opens i j (opens i c.obj.handles + 1) c.obj.handles);
    once = v.once;
    blocked = λ e. v.blocked e;
    reserved = λ j.
        ground (
          arith,
          v.reserved j,
          waits_unique-set_opens i j (opens i c.obj.handles + 1) c.obj.handles,
        );
    pending = λ w e. ground (
      arith,
      v.pending w e,
      opens-handle_open w,
      counted-handle_open v.counted,
      two_open w i c.obj.handles,
      opens-le-count w c.obj.handles,
    );
    plain = v.plain;
  }

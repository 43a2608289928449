-- ===== src/Session/Ledger/Released.antt =====
-- daemon/repository.hpp, daemon/allocator.hpp: what `release` does to the ledger: the vouchers and
-- the memory of what nothing refers to any more are given back.
use partake.Prelude.{
  ℕ, ◌+◌, ◌^◌, ◌≡◌, ◌≤◌, ◌<◌, refl, true, Option, none, some, List, [], ◌∷◌, ◌++◌, ◌==◌, hit,
  Bool-cases, inl, inr, arith,
}
use partake.Arena.{Arena}
use partake.Arena.Deallocation.{deallocate-Freed}
use partake.Arena.Lifetime.{Held, Reach, gave, give, holds, Reach-Agrees, holds_pos}
use partake.Object.{Handle, Object, is_id}
use partake.Closing.{drop_voucher}
use partake.Session.{Voucher, World, update}
use partake.Session.Release.{
  release, release_vouchers, release_objects, is_unused, keep_handles, deallocate_if,
}
use partake.Session.Ledger.{
  ledger, objects_at, vouchers_at, owners, targets, starts, IsBalanced, lower, fewer_vouchers,
  objects_at-lower, owners-lower, vouchers_at-lower, ledger-update,
}
use partake.Session.Ledger.Kept.{row-drop_voucher}

targets-append : (a : ℕ) (vs ws : List Voucher) → targets a (vs ++ ws) ≡ targets a vs + targets a ws
targets-append a [] ws = omega arith
targets-append a (v ∷ vs) ws = ground (arith, targets-append a vs ws)

pub starts-holds : (s : ℕ) (held : Held) → 0 < starts s held → (n : ℕ) × 0 < holds s n held
starts-holds s [] h = absurd (omega arith)
starts-holds s ((start, count) ∷ held) h = elim (Bool-cases (s == start)) [
  | inl e ↦ (count, ground (arith, e))
  | inr e ↦ let (n, p) = starts-holds s held (ground (arith, e, h)) in (n, ground (arith, p))
]

pub starts-give :
    (s start count : ℕ) (held : Held)
    → 0 < holds start count held
    → starts s (give start count held) + hit (s == start) ≡ starts s held
starts-give s start count [] h = absurd (omega arith)
starts-give s start count ((t, m) ∷ held) h = ground (arith, starts-give s start count held)

-- Memory that is held can be given back.
freed :
    (size : ℕ) (a : Arena) (held : Held) (s : ℕ)
    → size < 2 ^ 64
    → Reach size a held
    → 0 < starts s held
    → (held' : Held) × Reach size (deallocate_if (some s) a) held'
      × ((t : ℕ) → starts t held' + hit (t == s) ≡ starts t held)
freed size a held s small r h =
    let (n, p) = starts-holds s held h in
    let now = Reach-Agrees size small r in
    let pos = holds_pos s n held (now.no_empty s) p in
    let (b, run, step) = deallocate-Freed a s n now.valid pos (omega (arith, now.used s n pos)) in
    (give s n held, rw (deallocate_if, run) (gave s n r p run), λ t. starts-give t s n held p)

no_vouchers_left : (o : Object) → is_unused o ≡ true → o.n_vouchers ≡ 0
no_vouchers_left o e = go (keep_handles o.handles) refl
  where
    go : (hs : List Handle) → keep_handles o.handles ≡ hs → o.n_vouchers ≡ 0
    go [] q = ground (arith, rw (is_unused, q) at e)
    go (h ∷ hs) q = absurd (ground (arith, rw (is_unused, q) at e))

record AreReleased (size : ℕ) (os : List Object) (extra : ℕ → ℕ) (r : List Object × Arena)
    : Type 0 where
  fewer : (b : ℕ) → objects_at b (ledger r.0) ≤ objects_at b (ledger os)
  same_vouchers : (b : ℕ) → vouchers_at b (ledger r.0) ≡ vouchers_at b (ledger os)
  held : Held
  reached : Reach size r.1 held
  owned : (s : ℕ) → owners s (ledger r.0) + extra s ≡ starts s held

abbrev and_own : Option ℕ → (ℕ → ℕ) → ℕ → ℕ
and_own resource extra s = extra s + hit (is_id s resource)

module _ (size : ℕ) (small : size < 2 ^ 64) where
  unused-AreReleased :
      (o : Object) (os : List Object) (extra : ℕ → ℕ) (r : List Object × Arena)
      → o.n_vouchers ≡ 0
      → AreReleased size os (and_own o.resource extra) r
      → AreReleased size (o ∷ os) extra (r.0, deallocate_if o.resource r.1)
  unused-AreReleased o os extra r none_left h = go o.resource refl
    where
      go :
          (res : Option ℕ)
          → o.resource ≡ res
          → AreReleased size (o ∷ os) extra (r.0, deallocate_if res r.1)
      go none e = record {
        fewer = λ b. omega (arith, h.fewer b);
        same_vouchers = λ b. ground (arith, h.same_vouchers b, none_left);
        held = h.held;
        reached = h.reached;
        owned = λ s. ground (arith, rw e at h.owned s);
      }
      go (some t) e =
          let (held, reached, fell) =
            freed size r.1 h.held t small h.reached (ground (arith, rw e at h.owned t)) in
          record {
            fewer = λ b. omega (arith, h.fewer b);
            same_vouchers = λ b. ground (arith, h.same_vouchers b, none_left);
            held = held;
            reached = reached;
            owned = λ s. ground (arith, rw e at h.owned s, fell s);
          }

  used-AreReleased :
      (o : Object) (os : List Object) (extra : ℕ → ℕ) (r : List Object × Arena)
      → AreReleased size os (and_own o.resource extra) r
      → AreReleased size (o ∷ os) extra (record o { handles = keep_handles o.handles } ∷ r.0, r.1)
  used-AreReleased o os extra r h = record {
    fewer = λ b. omega (arith, h.fewer b);
    same_vouchers = λ b. ground (arith, h.same_vouchers b);
    held = h.held;
    reached = h.reached;
    owned = λ s. omega (arith, h.owned s);
  }

  release_objects-AreReleased :
      (os : List Object) (a : Arena) (held : Held) (extra : ℕ → ℕ)
      → Reach size a held
      → ((s : ℕ) → owners s (ledger os) + extra s ≡ starts s held)
      → AreReleased size os extra (release_objects os a)
  unfolding release_objects
  release_objects-AreReleased [] a held extra r e = record {
    fewer = λ b. omega arith;
    same_vouchers = λ b. refl;
    held = held;
    reached = r;
    owned = e;
  }
  release_objects-AreReleased (o ∷ os) a held extra r e =
      let rest =
        release_objects-AreReleased os a held (and_own o.resource extra) r
          (λ s. omega (arith, e s)) in
      elim (Bool-cases (is_unused o)) [
        | inl u ↦
            simp u
              (unused-AreReleased o os extra (release_objects os a) (no_vouchers_left o u) rest)
        | inr u ↦ simp u (used-AreReleased o os extra (release_objects os a) rest)
      ]

module _ (size : ℕ) where
  -- The books of the vouchers that were looked at, and those still to come.
  pub record IsSettled (vs : List Voucher) (w : World) : Type 0 where
    pub distinct : (b : ℕ) → objects_at b (ledger w.objects) ≤ 1
    pub counted : (b : ℕ) → vouchers_at b (ledger w.objects) ≡ targets b w.vouchers + targets b vs
    pub held : Held
    pub reached : Reach size w.arena held
    pub owned : (s : ℕ) → owners s (ledger w.objects) ≡ starts s held

  pub kept-IsSettled :
      (v : Voucher) (vs : List Voucher) (w : World)
      → IsSettled (v ∷ vs) w
      → IsSettled vs (record w { vouchers = w.vouchers ++ v ∷ [] })
  kept-IsSettled v vs w h = record {
    distinct = h.distinct;
    counted = λ b. omega (arith, h.counted b, targets-append b w.vouchers (v ∷ []));
    held = h.held;
    reached = h.reached;
    owned = h.owned;
  }

  pub dropped-IsSettled :
      (v : Voucher) (vs : List Voucher) (w : World)
      → IsSettled (v ∷ vs) w
      → IsSettled vs (update v.target drop_voucher w)
  unfolding update
  dropped-IsSettled v vs w h =
      let e : ledger (update v.target drop_voucher w).objects ≡ lower v.target (ledger w.objects) =
        ledger-update v.target fewer_vouchers drop_voucher w row-drop_voucher in
      record {
        distinct =
            λ b. rw e (omega (arith, objects_at-lower b v.target (ledger w.objects), h.distinct b));
        counted = λ b. rw e (
            ground (
              arith,
              vouchers_at-lower b v.target (ledger w.objects),
              h.distinct v.target,
              h.counted b,
              h.counted v.target,
            ));
        held = h.held;
        reached = h.reached;
        owned = λ s. rw e (omega (arith, owners-lower s v.target (ledger w.objects), h.owned s));
      }

  release_vouchers-IsSettled :
      (vs : List Voucher) (w : World) → IsSettled vs w → IsSettled [] (release_vouchers vs w)
  unfolding release_vouchers
  release_vouchers-IsSettled [] w h = h
  release_vouchers-IsSettled (v ∷ vs) w h = elim (Bool-cases v.queued) [
    | inl e ↦ simp e (
        release_vouchers-IsSettled vs (record w { vouchers = w.vouchers ++ v ∷ [] })
          (kept-IsSettled v vs w h))
    | inr e ↦ simp e (
        release_vouchers-IsSettled vs (update v.target drop_voucher w) (dropped-IsSettled v vs w h))
  ]

-- The books are balanced: see `IsBalanced`.
abbrev pub Balanced : ℕ → World → Type 0
Balanced size w = IsBalanced size (ledger w.objects) w.vouchers w.arena

pub IsSettled-start :
    (size : ℕ) (w : World)
    → Balanced size w
    → IsSettled size w.vouchers (record w { vouchers = [] })
IsSettled-start size w h = record {
  distinct = h.distinct;
  counted = λ b. omega (arith, h.counted b);
  held = h.held;
  reached = h.reached;
  owned = h.owned;
}

-- What nothing refers to any more is given back, and the books stay balanced.
pub release-Balanced :
    (size : ℕ) (w : World) → size < 2 ^ 64 → Balanced size w → Balanced size (release w)
unfolding release
release-Balanced size w small h =
    let settled = IsSettled-start size w h in
    let w' = release_vouchers w.vouchers (record w { vouchers = [] }) in
    let mid = release_vouchers-IsSettled size w.vouchers (record w { vouchers = [] }) settled in
    let after =
      release_objects-AreReleased size small w'.objects w'.arena mid.held (λ s. 0) mid.reached
        (λ s. omega (arith, mid.owned s)) in
    record {
      distinct = λ b. omega (arith, after.fewer b, mid.distinct b);
      counted = λ b. omega (arith, after.same_vouchers b, mid.counted b);
      held = after.held;
      reached = after.reached;
      owned = λ s. omega (arith, after.owned s);
    }

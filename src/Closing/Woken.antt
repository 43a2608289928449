-- ===== src/Closing/Woken.antt =====
-- What `resume_requests_pending_on_share` does for one handle, and then for each handle on the
-- object's list.
use mathlib.Core.Path.{fun_ext}
use partake.Prelude.{
  ℕ, ◌+◌, ◌≡◌, refl, true, false, List, [], ◌∷◌, ◌++◌, map, append_assoc, append-nil, arith, ◌==◌,
  if◌then◌else◌, length, sym, ◌∙◌,
}
use partake.Object.{
  Cell, Reply, opens, waits_share, waits_unique, present, contains, resume_opens,
  resume_requests_pending_on_share,
}
use partake.Object.Handles.{
  count_open, count_open-set_waits_share, opens-set_waits_share, waits_share-set_waits_share,
  waits_unique-set_waits_share, owner-set_waits_share, present-set_waits_share,
}
use partake.Closing.Resume.{answer, gain, Resumed, answer-Resumed, resume_opens-Resumed}

-- `c'` is `c` with every request of handle `i` resumed.
pub record Woken (i : ℕ) (c c' : Cell) : Type 0 where
  pub resumed : Resumed i (length (waits_share i c.obj.handles)) c c'
  pub share_at :
      (j : ℕ) → waits_share j c'.obj.handles ≡ (if j == i then [] else waits_share j c.obj.handles)
  pub said : c'.env.sent ≡ c.env.sent ++ map (answer c i) (waits_share i c.obj.handles)

pub resume-Woken :
    (i : ℕ) (c : Cell)
    → present i c.obj.handles ≡ true
    → Woken i c (resume_requests_pending_on_share i c)
unfolding resume_requests_pending_on_share
resume-Woken i c there =
    let seqnos = waits_share i c.obj.handles in
    let d = resume_opens i seqnos c in
    let (p, same, said) = resume_opens-Resumed i seqnos c there in
    record {
      resumed = record {
        same_shared = p.same_shared;
        same_policy = p.same_policy;
        same_key = p.same_key;
        same_vouchers = p.same_vouchers;
        same_writer = p.same_writer;
        same_list = p.same_list;
        same_unique = p.same_unique;
        same_fault = p.same_fault;
        same_count = p.same_count;
        counts = λ e. p.counts e ∙ sym (count_open-set_waits_share i [] d.obj.handles);
        opens_at = λ j. opens-set_waits_share i j [] d.obj.handles ∙ p.opens_at j;
        unique_at = λ j. waits_unique-set_waits_share i j [] d.obj.handles ∙ p.unique_at j;
        owner_at = λ j. owner-set_waits_share i j [] d.obj.handles ∙ p.owner_at j;
        present_at = λ j. present-set_waits_share i j [] d.obj.handles ∙ p.present_at j;
      };
      share_at = λ j.
          ground (arith, waits_share-set_waits_share i j [] d.obj.handles, p.present_at i, same j);
      said = said;
    }

-- The responses to the requests that wait at the handles of a list.
abbrev pub answers : Cell → List ℕ → List Reply
answers c [] = []
answers c (i ∷ is) = map (answer c i) (waits_share i c.obj.handles) ++ answers c is

-- `c'` is `c` with every request of the handles of `is` resumed.
pub record AllWoken (is : List ℕ) (c c' : Cell) : Type 0 where
  pub same_shared : c'.obj.shared ≡ c.obj.shared
  pub same_policy : c'.obj.policy ≡ c.obj.policy
  pub same_key : c'.obj.key ≡ c.obj.key
  pub same_vouchers : c'.obj.n_vouchers ≡ c.obj.n_vouchers
  pub same_writer : c'.obj.exc_writer ≡ c.obj.exc_writer
  pub same_unique : c'.obj.awaiting_unique ≡ c.obj.awaiting_unique
  pub same_fault : c'.env.fault ≡ c.env.fault
  pub same_count : c.obj.shared ≡ false → c'.obj.n_open_handles ≡ c.obj.n_open_handles
  pub counts :
      c.obj.n_open_handles ≡ count_open c.obj.handles
      → c'.obj.n_open_handles ≡ count_open c'.obj.handles
  pub opens_at :
      (j : ℕ)
      → opens j c'.obj.handles
        ≡ opens j c.obj.handles
          + (if contains j is then gain c.obj.shared (length (waits_share j c.obj.handles)) else 0)
  pub share_at :
      (j : ℕ)
      → waits_share j c'.obj.handles ≡ (if contains j is then [] else waits_share j c.obj.handles)
  pub unique_at : (j : ℕ) → waits_unique j c'.obj.handles ≡ waits_unique j c.obj.handles
  pub said : c'.env.sent ≡ c.env.sent ++ answers c is

pub AllWoken-nil : (c : Cell) → AllWoken [] c c
unfolding contains
AllWoken-nil c = record {
  same_shared = refl;
  same_policy = refl;
  same_key = refl;
  same_vouchers = refl;
  same_writer = refl;
  same_unique = refl;
  same_fault = refl;
  same_count = λ e. refl;
  counts = λ e. e;
  opens_at = λ j. omega arith;
  share_at = λ j. refl;
  unique_at = λ j. refl;
  said = sym (append-nil c.env.sent);
}

answers-Woken :
    (i : ℕ) (is : List ℕ) {c d : Cell}
    → contains i is ≡ false
    → Woken i c d
    → answers d is ≡ answers c is
unfolding contains
answers-Woken i [] e w = refl
answers-Woken i (k ∷ is) {c} {d} e w =
    let same : answer d k ≡ answer c k = fun_ext λ s. answer-Resumed i _ k s w.resumed in
    let reqs : waits_share k d.obj.handles ≡ waits_share k c.obj.handles =
      ground (arith, w.share_at k) in
    rw (same, reqs, answers-Woken i is (ground arith) w)

pub AllWoken-cons :
    (i : ℕ) (is : List ℕ) {c d e : Cell}
    → contains i is ≡ false
    → Woken i c d
    → AllWoken is d e
    → AllWoken (i ∷ is) c e
unfolding contains
AllWoken-cons i is {c} {d} {e} fresh w a = record {
  same_shared = a.same_shared ∙ w.resumed.same_shared;
  same_policy = a.same_policy ∙ w.resumed.same_policy;
  same_key = a.same_key ∙ w.resumed.same_key;
  same_vouchers = a.same_vouchers ∙ w.resumed.same_vouchers;
  same_writer = a.same_writer ∙ w.resumed.same_writer;
  same_unique = a.same_unique ∙ w.resumed.same_unique;
  same_fault = a.same_fault ∙ w.resumed.same_fault;
  same_count = λ h. a.same_count (w.resumed.same_shared ∙ h) ∙ w.resumed.same_count h;
  counts = λ h. a.counts (w.resumed.counts h);
  opens_at =
      λ j. ground (arith, a.opens_at j, w.resumed.opens_at j, w.share_at j, w.resumed.same_shared);
  share_at = λ j. ground (arith, a.share_at j, w.share_at j);
  unique_at = λ j. a.unique_at j ∙ w.resumed.unique_at j;
  said =
      a.said
      ∙ rw (w.said, answers-Woken i is fresh w)
          (append_assoc c.env.sent (map (answer c i) (waits_share i c.obj.handles)) (answers c is));
}

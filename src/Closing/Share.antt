-- ===== src/Closing/Share.antt =====
-- `proper_object::share`: everyone who waits for the object gets it.
use partake.Prelude.{
  ℕ, ◌+◌, ◌≡◌, refl, true, false, ◌&&◌, ◌||◌, not, Option, none, some, List, [], ◌∷◌, ◌++◌, map,
  arith, Bool-cases, inl, inr, length, ◌∙◌,
}
use partake.Object.{
  Cell, Reply, opened, opens, waits_share, owner, present, is_set, is_empty, contains,
  resume_requests_pending_on_share, resume_all_on_share,
}
use partake.Object.Handles.{waits_share-present}
use partake.Closing.{share}
use partake.Closing.Invariant.{IsValid, Distinct}
use partake.Closing.Woken.{Woken, AllWoken, AllWoken-nil, AllWoken-cons, resume-Woken, answers}

abbrev pub AllPresent : List ℕ → Cell → Type 0
AllPresent [] c = Unit {0}
AllPresent (i ∷ is) c = (present i c.obj.handles ≡ true) × AllPresent is c

pub AllPresent-Woken :
    (i : ℕ) (is : List ℕ) {c d : Cell} → Woken i c d → AllPresent is c → AllPresent is d
AllPresent-Woken i [] w h = tt
AllPresent-Woken i (k ∷ is) w h = (w.resumed.present_at k ∙ h.0, AllPresent-Woken i is w h.1)

resume_all-AllWoken :
    (is : List ℕ) (c : Cell)
    → Distinct is
    → AllPresent is c
    → AllWoken is c (resume_all_on_share is c)
unfolding resume_all_on_share
resume_all-AllWoken [] c d h = AllWoken-nil c
resume_all-AllWoken (i ∷ is) c d h =
    let w = resume-Woken i c h.0 in
    AllWoken-cons i is d.0 w (
      resume_all-AllWoken is (resume_requests_pending_on_share i c) d.1
        (AllPresent-Woken i is w h.1))

-- The waiting handles of a valid object are there.
pub waiting-AllPresent :
    (c : Cell) (is : List ℕ)
    → ((j : ℕ) → contains j is ≡ true → is_empty (waits_share j c.obj.handles) ≡ false)
    → AllPresent is c
unfolding contains
waiting-AllPresent c [] h = tt
waiting-AllPresent c (i ∷ is) h = (
  waits_share-present i c.obj.handles (h i (ground arith)),
  waiting-AllPresent c is (λ j e. h j (ground arith)),
)

-- The reply that a waiting request gets when the object is shared.
abbrev granted : Cell → ℕ → ℕ → Reply
granted c i seqno = opened (owner i c.obj.handles) seqno c.obj.key

abbrev grants : Cell → List ℕ → List Reply
grants c [] = []
grants c (i ∷ is) = map (granted c i) (waits_share i c.obj.handles) ++ grants c is

-- What `share` does to a valid object with an exclusive writer.
pub is_empty-eq : (l : List ℕ) → is_empty l ≡ true → l ≡ []
is_empty-eq [] e = refl
is_empty-eq (x ∷ xs) e = ground arith

pub record Shared (c c' : Cell) : Type 0 where
  pub valid : IsValid c'
  pub shared : c'.obj.shared ≡ true
  pub writer : c'.obj.exc_writer ≡ none
  pub list : c'.obj.awaiting_share ≡ []
  pub share_at : (j : ℕ) → waits_share j c'.obj.handles ≡ []
  pub opens_at :
      (j : ℕ)
      → opens j c'.obj.handles ≡ opens j c.obj.handles + length (waits_share j c.obj.handles)
  pub said : c'.env.sent ≡ c.env.sent ++ grants c c.obj.awaiting_share

module _ (c : Cell) (v : IsValid c) (w : ℕ) (writes : c.obj.exc_writer ≡ some w) where
  abbrev marked : Cell
  marked = record c {
    obj = record c.obj { shared = true; exc_writer = none };
    env = record c.env { fault = c.env.fault || not (not c.obj.shared && is_set c.obj.exc_writer) };
  }

  woken : AllWoken c.obj.awaiting_share marked (resume_all_on_share c.obj.awaiting_share marked)
  woken =
      resume_all-AllWoken c.obj.awaiting_share marked v.once
        (waiting-AllPresent marked c.obj.awaiting_share (λ j e. ground (arith, v.waiting j)))

  answers-grants : (is : List ℕ) → answers marked is ≡ grants c is
  answers-grants [] = refl
  answers-grants (i ∷ is) = rw (answers-grants is) refl

  -- No request for unique ownership waits at an object that is not shared.
  nobody_reserves : c.obj.awaiting_unique ≡ none
  nobody_reserves = go c.obj.awaiting_unique refl
    where
      go : (o : Option ℕ) → c.obj.awaiting_unique ≡ o → c.obj.awaiting_unique ≡ none
      go none e = e
      go (some u) e = ground (arith, v.pending u e, v.written w writes)

  emptied : (j : ℕ) → waits_share j (share c).obj.handles ≡ []
  unfolding share
  emptied j = elim (Bool-cases (contains j c.obj.awaiting_share)) [
    | inl e ↦ ground (arith, woken.share_at j)
    | inr e ↦
        woken.share_at j
        ∙ rw e (is_empty-eq (waits_share j c.obj.handles) (ground (arith, v.waiting j)))
  ]

  -- When the exclusive writer of a valid object shares it, every Open request that waits is
  -- answered with the object's key, in the order of the list and of each handle's requests; each
  -- handle is open once more for each of its requests; nobody waits any longer, and the object
  -- stays valid.
  pub share-Shared : Shared c (share c)
  unfolding share contains
  share-Shared = record {
    valid = record {
      sound = ground (arith, woken.same_fault, v.sound, v.written w writes);
      counted = woken.counts v.counted;
      written = λ u e. ground (arith, woken.same_writer);
      writable = λ p s h. ground (arith, woken.same_shared);
      waiting = λ j. rw (emptied j) refl;
      once = tt;
      blocked = λ e. ground arith;
      reserved = λ j. rw (woken.unique_at j, woken.same_unique) (v.reserved j);
      pending = λ u e. ground (arith, woken.same_unique, nobody_reserves);
      plain = λ p. ground (arith, v.plain, woken.same_policy);
    };
    shared = woken.same_shared;
    writer = woken.same_writer;
    list = refl;
    share_at = emptied;
    opens_at = λ j. ground (arith, woken.opens_at j, v.waiting j);
    said = woken.said ∙ rw (answers-grants c.obj.awaiting_share) refl;
  }

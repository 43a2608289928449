-- ===== src/Closing/Drain.antt =====
-- `proper_object::close` of the exclusive writer: the loop that fails those who wait for it to
-- share.
use partake.Prelude.{ℕ, ◌≡◌, refl, List, [], ◌∷◌}
use partake.Object.{Cell, on_obj, resume_requests_pending_on_share}
use partake.Closing.{drain}
use partake.Closing.Invariant.{Distinct}
use partake.Closing.Woken.{AllWoken, AllWoken-nil, AllWoken-cons, resume-Woken, answers}
use partake.Closing.Share.{AllPresent, AllPresent-Woken}

abbrev at_list : List ℕ → Cell → Cell
at_list is c = on_obj (λ o. record o { awaiting_share = is }) c

answers-at_list : (ks is : List ℕ) (c : Cell) → answers (at_list ks c) is ≡ answers c is
answers-at_list ks [] c = refl
answers-at_list ks (i ∷ is) c = rw (answers-at_list ks is c) refl

AllPresent-at_list : (ks is : List ℕ) (c : Cell) → AllPresent is c → AllPresent is (at_list ks c)
AllPresent-at_list ks [] c h = tt
AllPresent-at_list ks (i ∷ is) c h = (h.0, AllPresent-at_list ks is c h.1)

AllWoken-at_list : (ks is : List ℕ) {c d : Cell} → AllWoken is (at_list ks c) d → AllWoken is c d
AllWoken-at_list ks is {c} {d} a = record {
  same_shared = a.same_shared;
  same_policy = a.same_policy;
  same_key = a.same_key;
  same_vouchers = a.same_vouchers;
  same_writer = a.same_writer;
  same_unique = a.same_unique;
  same_fault = a.same_fault;
  same_count = a.same_count;
  counts = a.counts;
  opens_at = a.opens_at;
  share_at = a.share_at;
  unique_at = a.unique_at;
  said = rw (answers-at_list ks is c) at a.said;
}

-- The loop resumes every handle of the list, and takes it off.
pub drain-AllWoken :
    (is : List ℕ) (c : Cell) → Distinct is → AllPresent is c → AllWoken is c (drain is c)
unfolding drain
drain-AllWoken [] c d h = AllWoken-nil c
drain-AllWoken (i ∷ is) c d h =
    let w = resume-Woken i (at_list is c) h.0 in
    AllWoken-at_list is (i ∷ is) (
      AllWoken-cons i is d.0 w (
        drain-AllWoken is (resume_requests_pending_on_share i (at_list is c)) d.1
          (AllPresent-Woken i is w (AllPresent-at_list is is c h.1))))

pub drain-list :
    (is : List ℕ) (c : Cell)
    → AllPresent is c
    → c.obj.awaiting_share ≡ is
    → (drain is c).obj.awaiting_share ≡ []
unfolding drain
drain-list [] c h e = e
drain-list (i ∷ is) c h e =
    let w = resume-Woken i (at_list is c) h.0 in
    drain-list is (resume_requests_pending_on_share i (at_list is c))
      (AllPresent-Woken i is w (AllPresent-at_list is is c h.1)) w.resumed.same_list

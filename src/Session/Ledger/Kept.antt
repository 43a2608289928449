-- ===== src/Session/Ledger/Kept.antt =====
-- daemon/proper_object.hpp and daemon/handle.hpp: which operations leave the memory of an object
-- and its count of vouchers as they are.
use partake.Prelude.{
  ap, ◌++◌, ◌+◌, ℕ, zero, suc, ◌-◌, ◌≡◌, refl, true, not, Option, none, some, List, [], ◌∷◌, ◌==◌,
  ◌∙◌, ltb, ◌&&◌, Bool-cases, inl, inr, arith,
}
use partake.Protocol.{Policy, default, primitive}
use partake.Object.{
  Cell, assert, on_obj, handle_open, resume_open, resume_opens, resume_requests_pending_on_share,
  resume_all_on_share, do_unshare, resume_unshare, resume_request_pending_on_unique, waits_share,
  waits_unique, opens, set_opens, is_id, is_set,
}
use partake.Closing.{
  close_unique, drain, close_writer, object_close, handle_close, share, set_exclusive_writer,
  add_request_pending_on_share, set_request_pending_on_unique, drop_share, drop_unique,
  drop_pending_requests, close_repeatedly, close_all, add_voucher, drop_voucher,
  forget_awaiting_unique,
}
use partake.Session.{create_handle}
use partake.Session.Requests.{first_handle, with_handle, open_with, can_open_immediately}
use partake.Session.Ledger.Identity.{
  ids, core, Keeps, Keeps-Rewrites, ids-set_opens, ids-set_waits_share, ids-set_waits_unique,
}
use partake.Session.Ledger.{row, Rewrites, same, more_vouchers, fewer_vouchers}

pub core-handle_open : (i : ℕ) → Keeps (handle_open i)
unfolding handle_open
core-handle_open i c =
    ap (λ l. (row c.obj, l)) (ids-set_opens i (opens i c.obj.handles + 1) c.obj.handles)

core-resume_open : (i seqno : ℕ) → Keeps (resume_open i seqno)
unfolding resume_open
core-resume_open i seqno c = ground (arith, core-handle_open i c)

core-resume_opens : (i : ℕ) (l : List ℕ) → Keeps (resume_opens i l)
unfolding resume_opens
core-resume_opens i [] c = refl
core-resume_opens i (n ∷ ns) c = core-resume_opens i ns (resume_open i n c) ∙ core-resume_open i n c

core-resume_requests : (i : ℕ) → Keeps (resume_requests_pending_on_share i)
unfolding resume_requests_pending_on_share
core-resume_requests i c =
    let d = resume_opens i (waits_share i c.obj.handles) c in
    ap (λ l. (row d.obj, l)) (ids-set_waits_share i [] d.obj.handles)
    ∙ core-resume_opens i (waits_share i c.obj.handles) c

core-resume_all : (l : List ℕ) → Keeps (resume_all_on_share l)
unfolding resume_all_on_share
core-resume_all [] c = refl
core-resume_all (i ∷ is) c =
    core-resume_all is (resume_requests_pending_on_share i c) ∙ core-resume_requests i c

pub core-do_unshare : (i : ℕ) → Keeps (do_unshare i)
unfolding do_unshare
core-do_unshare i c = refl

core-resume_unshare : (i seqno : ℕ) → Keeps (resume_unshare i seqno)
unfolding resume_unshare do_unshare
core-resume_unshare i seqno c = ground arith

core-resume_request : (i : ℕ) → Keeps (resume_request_pending_on_unique i)
unfolding resume_request_pending_on_unique
core-resume_request i c = go (waits_unique i c.obj.handles) refl
  where
    go :
        (n : Option ℕ)
        → waits_unique i c.obj.handles ≡ n
        → core (resume_request_pending_on_unique i c).obj ≡ core c.obj
    go none e = rw (resume_request_pending_on_unique, e) refl
    go (some n) e =
        let d = resume_unshare i n c in
        rw (resume_request_pending_on_unique, e)
          (ap (λ l. (row d.obj, l)) (ids-set_waits_unique i none d.obj.handles)
            ∙ core-resume_unshare i n c)

core-close_unique : (i : ℕ) → Keeps (close_unique i)
unfolding close_unique
core-close_unique i c = go c.obj.awaiting_unique refl
  where
    go : (w : Option ℕ) → c.obj.awaiting_unique ≡ w → core (close_unique i c).obj ≡ core c.obj
    go none e = rw (close_unique, e) refl
    go (some w) e = rw (close_unique, e) (ground (arith, core-resume_request w c))

core-drain : (l : List ℕ) → Keeps (drain l)
unfolding drain
core-drain [] c = refl
core-drain (i ∷ is) c =
    let c' = on_obj (λ o. record o { awaiting_share = is }) c in
    core-drain is (resume_requests_pending_on_share i c') ∙ core-resume_requests i c'

core-close_writer : (i : ℕ) → Keeps (close_writer i)
unfolding close_writer
core-close_writer i c = elim (Bool-cases (is_id i c.obj.exc_writer)) [
  | inl e ↦ rw e (
      core-drain c.obj.awaiting_share
        (assert (c.obj.n_open_handles == 0) (on_obj (λ o. record o { exc_writer = none }) c)))
  | inr e ↦ rw e refl
]

core-object_close : (i : ℕ) → Keeps (object_close i)
unfolding object_close
core-object_close i c =
    let c' =
      on_obj (λ o. record o { n_open_handles = o.n_open_handles - 1 })
        (assert (ltb 0 c.obj.n_open_handles) c) in
    core-close_writer i (close_unique i c') ∙ core-close_unique i c'

pub core-handle_close : (i : ℕ) → Keeps (handle_close i)
unfolding handle_close
core-handle_close i c =
    let n = opens i c.obj.handles in
    let c' =
      on_obj (λ o. record o { handles = set_opens i (n - 1) o.handles }) (assert (ltb 0 n) c) in
    let woken = on_obj forget_awaiting_unique (assert (is_id i c'.obj.awaiting_unique) c') in
    ground (
      arith,
      core-object_close i c',
      core-resume_request i woken,
      ids-set_opens i (n - 1) c.obj.handles,
    )

pub core-share : Keeps share
unfolding share
core-share c = core-resume_all c.obj.awaiting_share (
    on_obj (λ o. record o { shared = true; exc_writer = none })
      (assert (not c.obj.shared && is_set c.obj.exc_writer) c))

core-set_exclusive_writer : (i : ℕ) → Keeps (set_exclusive_writer i)
unfolding set_exclusive_writer
core-set_exclusive_writer i c = refl

pub core-add_request : (i seqno : ℕ) → Keeps (add_request_pending_on_share i seqno)
unfolding add_request_pending_on_share
core-add_request i seqno c =
    let l = waits_share i c.obj.handles ++ seqno ∷ [] in
    ap (λ l. (row c.obj, l)) (ids-set_waits_share i l c.obj.handles)

pub core-set_request : (i seqno : ℕ) → Keeps (set_request_pending_on_unique i seqno)
unfolding set_request_pending_on_unique
core-set_request i seqno c =
    ap (λ l. (row c.obj, l)) (ids-set_waits_unique i (some seqno) c.obj.handles)

core-drop_share : (i : ℕ) → Keeps (drop_share i)
unfolding drop_share
core-drop_share i c = ground (arith, ids-set_waits_share i [] c.obj.handles)

core-drop_unique : (i : ℕ) → Keeps (drop_unique i)
unfolding drop_unique
core-drop_unique i c = ground (arith, ids-set_waits_unique i none c.obj.handles)

pub core-drop_pending_requests : (i : ℕ) → Keeps (drop_pending_requests i)
unfolding drop_pending_requests
core-drop_pending_requests i c = core-drop_unique i (drop_share i c) ∙ core-drop_share i c

core-close_repeatedly : (fuel i : ℕ) → Keeps (close_repeatedly fuel i)
unfolding close_repeatedly
core-close_repeatedly zero i c = refl
core-close_repeatedly (suc fuel) i c = elim (Bool-cases (ltb 0 (opens i c.obj.handles))) [
  | inl e ↦
      rw (close_repeatedly, e)
        (core-close_repeatedly fuel i (handle_close i c) ∙ core-handle_close i c)
  | inr e ↦ rw (close_repeatedly, e) refl
]

pub core-close_all : (i : ℕ) → Keeps (close_all i)
unfolding close_all
core-close_all i c =
    let c' = drop_pending_requests i c in
    core-close_repeatedly (opens i c'.obj.handles) i c' ∙ core-drop_pending_requests i c

pub row-do_unshare : (i : ℕ) → Rewrites same (do_unshare i)
row-do_unshare i = Keeps-Rewrites (do_unshare i) (core-do_unshare i)

pub row-handle_close : (i : ℕ) → Rewrites same (handle_close i)
row-handle_close i = Keeps-Rewrites (handle_close i) (core-handle_close i)

pub row-share : Rewrites same share
row-share = Keeps-Rewrites share core-share

pub row-set_request : (i seqno : ℕ) → Rewrites same (set_request_pending_on_unique i seqno)
row-set_request i seqno =
    Keeps-Rewrites (set_request_pending_on_unique i seqno) (core-set_request i seqno)

pub row-drop_pending_requests : (i : ℕ) → Rewrites same (drop_pending_requests i)
row-drop_pending_requests i =
    Keeps-Rewrites (drop_pending_requests i) (core-drop_pending_requests i)

pub row-close_all : (i : ℕ) → Rewrites same (close_all i)
row-close_all i = Keeps-Rewrites (close_all i) (core-close_all i)

pub row-first_handle : (s : ℕ) (policy : Policy) → Rewrites same (first_handle s policy)
unfolding first_handle create_handle handle_open set_exclusive_writer
row-first_handle s default c = refl
row-first_handle s primitive c = refl

row-with_handle : (s : ℕ) (hnd : Option ℕ) → Rewrites same (with_handle s hnd)
unfolding with_handle create_handle
row-with_handle s none c = refl
row-with_handle s (some i) c = refl

pub row-open_with : (s : ℕ) (hnd : Option ℕ) (seqno : ℕ) → Rewrites same (open_with s hnd seqno)
unfolding open_with handle_open add_request_pending_on_share
row-open_with s hnd seqno c = elim (Bool-cases (can_open_immediately c.obj)) [
  | inl e ↦ rw e (row-with_handle s hnd c)
  | inr e ↦ rw e (row-with_handle s hnd c)
]

pub row-add_voucher : Rewrites more_vouchers add_voucher
unfolding add_voucher
row-add_voucher c = refl

-- The end of a voucher lowers the count, whatever it resumes.
pub core-drop_voucher :
    (c : Cell) → core (drop_voucher c).obj ≡ (fewer_vouchers (row c.obj), ids c.obj.handles)
unfolding drop_voucher
core-drop_voucher c = go c.obj.awaiting_unique refl
  where
    go :
        (w : Option ℕ)
        → c.obj.awaiting_unique ≡ w
        → core (drop_voucher c).obj ≡ (fewer_vouchers (row c.obj), ids c.obj.handles)
    go none e = rw (drop_voucher, e) refl
    go (some w) e =
        let c' =
          on_obj (λ o. record o { n_vouchers = o.n_vouchers - 1 })
            (assert (ltb 0 c.obj.n_vouchers) c) in
        rw (drop_voucher, e) (ground (arith, core-resume_request w c'))

pub row-drop_voucher : Rewrites fewer_vouchers drop_voucher
row-drop_voucher c = ap (λ p. p.0) (core-drop_voucher c)

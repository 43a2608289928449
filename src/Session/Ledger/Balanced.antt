-- ===== src/Session/Ledger/Balanced.antt =====
-- daemon/session.hpp: what the requests do to the ledger.
use mathlib.Core.Path.{subst}
use partake.Prelude.{
  ℕ, ◌^◌, ◌≡◌, ◌≤◌, ◌<◌, refl, true, Option, none, some, List, [], ◌∷◌, arith, some_inj,
}
use partake.Arena.{Arena, allocate, block_count}
use partake.KeySequence.{generate}
use partake.Allocator.{allocate_bytes, blocks_for}
use partake.Arena.Lifetime.{took}
use partake.Protocol.{Policy}
use partake.Object.{Object, Cell}
use partake.Closing.{add_voucher}
use partake.Session.{Voucher, World, update, claim_once, claim_in, claim_voucher}
use partake.Session.Requests.{take_resource, create_object, free_address, voucher_for}
use partake.Session.Ledger.{
  ledger, Rewrites, same, more_vouchers, objects_at, targets, raise, objects_at-raise, owners-raise,
  vouchers_at-raise, ledger-update, ledger-kept,
}
use partake.Session.Ledger.Kept.{row-add_voucher}
use partake.Session.Ledger.Released.{Balanced, release-Balanced}

targets-claim_in :
    (k now b : ℕ) (vs vs' : List Voucher)
    → claim_in k now vs ≡ some vs'
    → targets b vs' ≡ targets b vs
unfolding claim_in claim_once
targets-claim_in k now b [] vs' e = absurd (cc)
targets-claim_in k now b (v ∷ vs) vs' e =
    go (claim_in k now vs) refl (λ ws q. targets-claim_in k now b vs ws q) e
  where
    go :
        (rest : Option (List Voucher))
        → claim_in k now vs ≡ rest
        → ((ws : List Voucher) → rest ≡ some ws → targets b ws ≡ targets b vs)
        → claim_in k now (v ∷ vs) ≡ some vs'
        → targets b vs' ≡ targets b (v ∷ vs)
    go none q ih e = ground (arith, rw (claim_in, q) at e)
    go (some ws) q ih e = ground (arith, rw (claim_in, q) at e, ih ws refl)

-- An address that is free is that of no object.
objects_at-big : (b : ℕ) (os : List Object) → free_address os ≤ b → objects_at b (ledger os) ≡ 0
unfolding free_address
objects_at-big b [] h = refl
objects_at-big b (o ∷ os) h = ground (arith, objects_at-big b os)

-- The world with a voucher more, before `create_voucher` returns.
abbrev pub vouchered : Object → ℕ → ℕ → World → World
vouchered o count expiry w =
    let w' = update o.address add_voucher w in
    let key = generate w.env.prev_key in
    record w' {
      env = record w'.env { prev_key = key };
      vouchers =
          record { key = key; target = o.address; count = count; expiry = expiry; queued = true }
          ∷ w.vouchers;
    }

module _ (size : ℕ) (small : size < 2 ^ 64) where
  pub kept-Balanced :
      (a : ℕ) (f : Cell → Cell) (w : World)
      → Rewrites same f
      → Balanced size w
      → Balanced size (update a f w)
  unfolding update
  kept-Balanced a f w k h = rw (ledger-kept a f w k) h

  pub claimed-Balanced :
      (k now : ℕ) (w w' : World)
      → claim_voucher k now w ≡ some w'
      → Balanced size w
      → Balanced size w'
  claimed-Balanced k now w w' e h = go (claim_in k now w.vouchers) refl
    where
      go : (r : Option (List Voucher)) → claim_in k now w.vouchers ≡ r → Balanced size w'
      go none q = absurd (ground (arith, rw (claim_voucher, q) at e))
      go (some vs) q =
          let e' : record w { vouchers = vs } ≡ w' = some_inj (rw (claim_voucher, q) at e) in
          subst (Balanced size) e' (record {
            distinct = h.distinct;
            counted = λ b. omega (arith, targets-claim_in k now b w.vouchers vs q, h.counted b);
            held = h.held;
            reached = h.reached;
            owned = h.owned;
          })

  pub vouchered-Balanced :
      (o : Object) (count expiry : ℕ) (w : World)
      → 0 < objects_at o.address (ledger w.objects)
      → Balanced size w
      → Balanced size (vouchered o count expiry w)
  unfolding update
  vouchered-Balanced o count expiry w there h =
      let e : ledger (update o.address add_voucher w).objects ≡ raise o.address (ledger w.objects) =
        ledger-update o.address more_vouchers add_voucher w row-add_voucher in
      rw e (record {
        distinct =
            λ b. omega (arith, objects_at-raise b o.address (ledger w.objects), h.distinct b);
        counted =
            λ b. omega (arith, vouchers_at-raise b o.address (ledger w.objects) there, h.counted b);
        held = h.held;
        reached = h.reached;
        owned = λ s. omega (arith, owners-raise s o.address (ledger w.objects), h.owned s);
      })

  pub added-Balanced :
      (o : Object) (count expiry : ℕ) (w : World)
      → 0 < objects_at o.address (ledger w.objects)
      → Balanced size w
      → Balanced size (voucher_for o count expiry w).1
  unfolding voucher_for
  added-Balanced o count expiry w there h =
      release-Balanced size (vouchered o count expiry w) small
        (vouchered-Balanced o count expiry w there h)

  pub created-Balanced :
      (shift bytes : ℕ) (policy : Policy) (w : World)
      → Balanced size w
      → (let (resource, a) = take_resource shift bytes w.arena in
          Balanced size (create_object policy resource (record w { arena = a })))
  unfolding take_resource create_object allocate_bytes
  created-Balanced shift bytes policy w h = go (allocate w.arena (blocks_for shift bytes)) refl
    where
      go :
          (r : Option (ℕ × Arena))
          → allocate w.arena (blocks_for shift bytes) ≡ r
          → (let (resource, a) = take_resource shift bytes w.arena in
              Balanced size (create_object policy resource (record w { arena = a })))
      go none q =
          rw (take_resource, q)
            (record {
              distinct = λ b. ground (arith, h.distinct b, objects_at-big b w.objects);
              counted = λ b. ground (arith, h.counted b);
              held = h.held;
              reached = h.reached;
              owned = λ s. ground (arith, h.owned s);
            })
      go (some (start, a)) q =
          rw (take_resource, q)
            (record {
              distinct = λ b. ground (arith, h.distinct b, objects_at-big b w.objects);
              counted = λ b. ground (arith, h.counted b);
              held = (start, block_count (blocks_for shift bytes)) ∷ h.held;
              reached = took (blocks_for shift bytes) start h.reached q;
              owned = λ s. ground (arith, h.owned s);
            })

-- ===== src/Session/Ledger/Memory.antt =====
-- daemon/repository.hpp: what balanced books say of the vouchers that are found and of the memory
-- of two objects.
use partake.Prelude.{
  ℕ, ◌+◌, ◌^◌, ◌≡◌, ◌≤◌, ◌<◌, ◌≢◌, refl, false, none, some, List, [], ◌∷◌, ◌==◌, ◌∙◌, hit,
  Bool-cases, inl, inr, arith, ap, ◌⊎◌, some_inj, sym, leb, ◌&&◌,
}
use partake.Arena.{Arena}
use partake.Arena.Counts.{count_used}
use partake.Arena.Invariant.{AreApart}
use partake.Arena.Lifetime.{
  Held, Reach, holds, held_apart, holds_pos, Reach-Agrees, give, holds-give,
}
use partake.Object.{Object}
use partake.Session.{World, object_at}
use partake.Session.Ledger.{ledger, vouchers_at, owners, starts}
use partake.Session.Ledger.Released.{starts-holds, starts-give}
use partake.Session.Ledger.Lifetime.{Run, Run-Balanced}

pub not_found : (a : ℕ) (os : List Object) → object_at a os ≡ none → vouchers_at a (ledger os) ≡ 0
unfolding object_at
not_found a [] e = refl
not_found a (o ∷ os) e = ground (arith, not_found a os)

owns_one :
    (a s : ℕ) (os : List Object) (o : Object)
    → object_at a os ≡ some o
    → o.resource ≡ some s
    → 0 < owners s (ledger os)
unfolding object_at
owns_one a s [] o e q = absurd (cc)
owns_one a s (p ∷ os) o e q = elim (Bool-cases (a == p.address)) [
  | inl f ↦
      let same_object : p ≡ o = some_inj (rw f at e) in
      let owned : p.resource ≡ some s = ap (λ x. x.resource) same_object ∙ q in
      rw owned (ground arith)
  | inr f ↦ omega (arith, owns_one a s os o (rw f at e) q)
]

own_two :
    (a b s : ℕ) (os : List Object) (o p : Object)
    → a ≢ b
    → object_at a os ≡ some o
    → object_at b os ≡ some p
    → o.resource ≡ some s
    → p.resource ≡ some s
    → 1 < owners s (ledger os)
unfolding object_at
own_two a b s [] o p d e f q r = absurd (cc)
own_two a b s (x ∷ os) o p d e f q r = elim (Bool-cases (a == x.address)) [
  | inl g ↦
      let other : (b == x.address) ≡ false = ground (arith, d) in
      let owned : x.resource ≡ some s = ap (λ y. y.resource) (some_inj (rw g at e)) ∙ q in
      rw owned (ground (arith, owns_one b s os p (rw other at f) r))
  | inr g ↦ elim (Bool-cases (b == x.address)) [
    | inl h ↦
        let owned : x.resource ≡ some s = ap (λ y. y.resource) (some_inj (rw h at f)) ∙ r in
        rw owned (ground (arith, owns_one a s os o (rw g at e) q))
    | inr h ↦ omega (arith, own_two a b s os o p d (rw g at e) (rw h at f) q r)
  ]
]

-- No two allocations that are held start at the same block.
starts_once :
    (size : ℕ) {a : Arena} {held : Held} (s : ℕ)
    → size < 2 ^ 64
    → Reach size a held
    → starts s held ≤ 1
starts_once size {a} {held} s small r = elim (Bool-cases (leb 2 (starts s held))) [
  | inr e ↦ ground (arith, e)
  | inl e ↦
      let (n, hn) = starts-holds s held (ground (arith, e)) in
      let (m, hm) = starts-holds s (give s n held) (ground (arith, e, starts-give s s n held hn)) in
      let both = holds-give s m s n held hn in
      let twice : 0 < holds s m held = omega (arith, both) in
      let now = Reach-Agrees size small r in
      let (within, one, apart) = held_apart size small r s n s m hn twice in
      let pn = holds_pos s n held (now.no_empty s) hn in
      let pm = holds_pos s m held (now.no_empty s) twice in
      absurd (omega (arith, same_block n m held pn pm hm one both apart))
]
  where
    same_block :
        (n m : ℕ) (held : Held)
        → 0 < n
        → 0 < m
        → 0 < holds s m (give s n held)
        → holds s n held ≡ 1
        → holds s m (give s n held) + hit (s == s && m == n) ≡ holds s m held
        → ((s ≡ s) × (n ≡ m)) ⊎ AreApart s n s m
        → 0 < 0
    same_block n m held pn pm hm one both (inl (q, e)) = ground (arith, hm, both, rw e at one, e)
    same_block n m held pn pm hm one both (inr (inl h)) = omega (arith, pn, h)
    same_block n m held pn pm hm one both (inr (inr h)) = omega (arith, pm, h)

-- In a daemon with fewer than 2 ^ 64 blocks of memory, after any requests, two objects with
-- different addresses that have memory have different memory: the chunks of their allocations are
-- in use, once each, and share no block.
pub memory_apart :
    (size : ℕ) {w : World} (a b s t : ℕ) (o p : Object)
    → size < 2 ^ 64
    → Run size w
    → a ≢ b
    → object_at a w.objects ≡ some o
    → object_at b w.objects ≡ some p
    → o.resource ≡ some s
    → p.resource ≡ some t
    → (n : ℕ) × (m : ℕ) × (0 < n)
      × (0 < m)
      × (count_used s n w.arena.chunks ≡ 1)
      × (count_used t m w.arena.chunks ≡ 1)
      × AreApart s n t m
memory_apart size {w} a b s t o p small r d e f q u =
    let books = Run-Balanced size small r in
    let now = Reach-Agrees size small books.reached in
    let (n, hn) =
      starts-holds s books.held (omega (arith, books.owned s, owns_one a s w.objects o e q)) in
    let (m, hm) =
      starts-holds t books.held (omega (arith, books.owned t, owns_one b t w.objects p f u)) in
    let (in_n, one_n, apart) = held_apart size small books.reached s n t m hn hm in
    let (in_m, one_m, apart') = held_apart size small books.reached t m s n hm hn in
    let pn = holds_pos s n books.held (now.no_empty s) hn in
    let pm = holds_pos t m books.held (now.no_empty t) hm in
    (
      n,
      m,
      pn,
      pm,
      omega (arith, now.used s n pn, one_n),
      omega (arith, now.used t m pm, one_m),
      elim apart [
        | inr h ↦ h
        | inl (same_start, same_count) ↦ absurd (
            omega (
              arith,
              own_two a b s w.objects o p d e f q (u ∙ ap some (sym same_start)),
              books.owned s,
              starts_once size s small books.reached,
            ))
      ],
    )

-- ===== src/Session/Ledger.antt =====
-- daemon/repository.hpp and daemon/proper_object.hpp: what the objects cost, that is the vouchers
-- and the memory of each, by its address. All else of an object is left out.
pub mod Identity
pub mod Kept
pub mod Released
pub mod Balanced
pub mod Found
pub mod Requested
pub mod Lifetime
pub mod Memory
use partake.Prelude.{
  ℕ, ◌+◌, ◌-◌, ◌≤◌, ◌<◌, ◌≡◌, refl, arith, Option, some, none, List, [], ◌∷◌, ◌++◌, ◌==◌, hit,
  if◌then◌else◌, ap, ◌∙◌, Bool-cases, inl, inr,
}
use partake.Arena.{Arena}
use partake.Arena.Lifetime.{Held, Reach}
use partake.Object.{Object, Cell, Env, is_id}
use partake.Session.{Voucher, World, at_object, update}

pub record Row : Type 0 where
  pub address : ℕ
  pub resource : Option ℕ
  pub n_vouchers : ℕ

abbrev pub row : Object → Row
row o = record { address = o.address; resource = o.resource; n_vouchers = o.n_vouchers }

abbrev pub ledger : List Object → List Row
ledger [] = []
ledger (o ∷ os) = row o ∷ ledger os

-- How many objects have an address, how many vouchers they count, and how many own the memory
-- that starts at a block.
abbrev pub objects_at : ℕ → List Row → ℕ
objects_at a [] = 0
objects_at a (r ∷ rs) = hit (a == r.address) + objects_at a rs

abbrev pub vouchers_at : ℕ → List Row → ℕ
vouchers_at a [] = 0
vouchers_at a (r ∷ rs) = (if a == r.address then r.n_vouchers else 0) + vouchers_at a rs

abbrev pub owners : ℕ → List Row → ℕ
owners s [] = 0
owners s (r ∷ rs) = hit (is_id s r.resource) + owners s rs

-- How many vouchers there are for an address, and how many allocations that start at a block.
abbrev pub targets : ℕ → List Voucher → ℕ
targets a [] = 0
targets a (v ∷ vs) = hit (a == v.target) + targets a vs

abbrev pub starts : ℕ → Held → ℕ
starts s [] = 0
starts s ((start, count) ∷ hs) = hit (s == start) + starts s hs

pub record IsBalanced (size : ℕ) (rows : List Row) (vs : List Voucher) (a : Arena) : Type 0 where
  -- No two objects have the same address.
  pub distinct : (b : ℕ) → objects_at b rows ≤ 1
  -- The objects count their vouchers, and each voucher is counted.
  pub counted : (b : ℕ) → vouchers_at b rows ≡ targets b vs
  -- The allocations that are held are those of the objects.
  pub held : Held
  pub reached : Reach size a held
  pub owned : (s : ℕ) → owners s rows ≡ starts s held

-- The first row of an address, changed.
abbrev rewrite_at : ℕ → (Row → Row) → List Row → List Row
rewrite_at a g [] = []
rewrite_at a g (r ∷ rs) = if a == r.address then g r ∷ rs else r ∷ rewrite_at a g rs

abbrev pub same : Row → Row
same r = r

abbrev pub more_vouchers : Row → Row
more_vouchers r = record r { n_vouchers = r.n_vouchers + 1 }

abbrev pub fewer_vouchers : Row → Row
fewer_vouchers r = record r { n_vouchers = r.n_vouchers - 1 }

abbrev pub raise : ℕ → List Row → List Row
raise a rs = rewrite_at a more_vouchers rs

abbrev pub lower : ℕ → List Row → List Row
lower a rs = rewrite_at a fewer_vouchers rs

pub objects_at-raise : (b a : ℕ) (rs : List Row) → objects_at b (raise a rs) ≡ objects_at b rs
objects_at-raise b a [] = refl
objects_at-raise b a (r ∷ rs) = ground (arith, objects_at-raise b a rs)

pub objects_at-lower : (b a : ℕ) (rs : List Row) → objects_at b (lower a rs) ≡ objects_at b rs
objects_at-lower b a [] = refl
objects_at-lower b a (r ∷ rs) = ground (arith, objects_at-lower b a rs)

pub owners-raise : (s a : ℕ) (rs : List Row) → owners s (raise a rs) ≡ owners s rs
owners-raise s a [] = refl
owners-raise s a (r ∷ rs) = ground (arith, owners-raise s a rs)

pub owners-lower : (s a : ℕ) (rs : List Row) → owners s (lower a rs) ≡ owners s rs
owners-lower s a [] = refl
owners-lower s a (r ∷ rs) = ground (arith, owners-lower s a rs)

pub vouchers_at-raise :
    (b a : ℕ) (rs : List Row)
    → 0 < objects_at a rs
    → vouchers_at b (raise a rs) ≡ vouchers_at b rs + hit (b == a)
vouchers_at-raise b a [] h = absurd (omega arith)
vouchers_at-raise b a (r ∷ rs) h = ground (arith, vouchers_at-raise b a rs)

pub no_vouchers : (a : ℕ) (rs : List Row) → objects_at a rs ≡ 0 → vouchers_at a rs ≡ 0
no_vouchers a [] e = refl
no_vouchers a (r ∷ rs) e = ground (arith, no_vouchers a rs)

pub vouchers_at-lower :
    (b a : ℕ) (rs : List Row)
    → objects_at a rs ≤ 1
    → 0 < vouchers_at a rs
    → vouchers_at b (lower a rs) + hit (b == a) ≡ vouchers_at b rs
vouchers_at-lower b a [] h p = absurd (omega arith)
vouchers_at-lower b a (r ∷ rs) h p = ground (arith, vouchers_at-lower b a rs, no_vouchers a rs)

-- What an operation does to the row of its object, if it does it to any.
abbrev pub Rewrites : (Row → Row) → (Cell → Cell) → Type 0
Rewrites g f = (c : Cell) → row (f c).obj ≡ g (row c.obj)

ledger-at_object :
    (a : ℕ) (g : Row → Row) (f : Cell → Cell) (os : List Object) (env : Env)
    → Rewrites g f
    → ledger (at_object a f os env).0 ≡ rewrite_at a g (ledger os)
unfolding at_object
ledger-at_object a g f [] env k = refl
ledger-at_object a g f (o ∷ os) env k = elim (Bool-cases (a == o.address)) [
  | inl e ↦ simp e (ap (λ r. r ∷ ledger os) (k (record { obj = o; env = env })))
  | inr e ↦ simp e (ap (λ rs. row o ∷ rs) (ledger-at_object a g f os env k))
]

pub ledger-update :
    (a : ℕ) (g : Row → Row) (f : Cell → Cell) (w : World)
    → Rewrites g f
    → ledger (update a f w).objects ≡ rewrite_at a g (ledger w.objects)
unfolding update
ledger-update a g f w k = ledger-at_object a g f w.objects w.env k

rewrite_at-same : (a : ℕ) (rs : List Row) → rewrite_at a same rs ≡ rs
rewrite_at-same a [] = refl
rewrite_at-same a (r ∷ rs) = ground (arith, rewrite_at-same a rs)

pub ledger-kept :
    (a : ℕ) (f : Cell → Cell) (w : World)
    → Rewrites same f
    → ledger (update a f w).objects ≡ ledger w.objects
ledger-kept a f w k = ledger-update a same f w k ∙ rewrite_at-same a (ledger w.objects)

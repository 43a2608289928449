-- ===== src/Session/Whole.antt =====
-- daemon/session.hpp, daemon/repository.hpp: all objects of a daemon together. What holds of each
-- object holds of all of them, whichever of them a request is about.
pub mod Kept
pub mod Found
pub mod Handlers
pub mod Opening
pub mod Creating
pub mod Departure
pub mod Lifetime
use mathlib.Core.Path.{subst}
use partake.Prelude.{
  ℕ, ◌+◌, ◌≡◌, refl, true, false, Bool, not, Option, none, some, List, [], ◌∷◌, ◌==◌, ◌∙◌,
  Bool-cases, inl, inr, if◌then◌else◌, arith, some_inj, sym,
}
use partake.Object.{Object, Cell, Env}
use partake.Closing.Invariant.{IsValid, Distinct}
use partake.Session.{World, at_object, update, object_at}
use partake.Session.Ledger.Identity.{ids}
use partake.Session.Ledger.Released.{Balanced}

-- A valid object, with handles of different numbers.
pub record IsOk (c : Cell) : Type 0 where
  pub valid : IsValid c
  pub distinct : Distinct (ids c.obj.handles)

abbrev pub AreOk : List Object → Env → Type 0
AreOk [] env = Unit {0}
AreOk (o ∷ os) env = IsOk (record { obj = o; env = env }) × AreOk os env

-- No assertion of an object or a handle has failed, and all objects are valid.
pub record IsWhole (w : World) : Type 0 where
  pub sound : w.env.fault ≡ false
  pub objects : AreOk w.objects w.env

-- An object does not depend on what others change, unless an assertion fails.
IsOk-env :
    (o : Object) (env env' : Env)
    → env'.fault ≡ false
    → IsOk (record { obj = o; env = env })
    → IsOk (record { obj = o; env = env' })
IsOk-env o env env' e h =
    let v = h.valid in
    record {
      valid = record {
        sound = e;
        counted = v.counted;
        written = v.written;
        writable = v.writable;
        waiting = v.waiting;
        once = v.once;
        blocked = v.blocked;
        reserved = v.reserved;
        pending = v.pending;
        plain = v.plain;
      };
      distinct = h.distinct;
    }

pub AreOk-env :
    (os : List Object) (env env' : Env) → env'.fault ≡ false → AreOk os env → AreOk os env'
AreOk-env [] env env' e h = h
AreOk-env (o ∷ os) env env' e h = (IsOk-env o env env' e h.0, AreOk-env os env env' e h.1)

IsOk-object_at :
    (a : ℕ) (os : List Object) (env : Env) (o : Object)
    → object_at a os ≡ some o
    → AreOk os env
    → IsOk (record { obj = o; env = env })
unfolding object_at
IsOk-object_at a [] env o e h = absurd (cc)
IsOk-object_at a (p ∷ os) env o e h = elim (Bool-cases (a == p.address)) [
  | inl q ↦ subst (λ x. IsOk (record { obj = x; env = env })) (some_inj (rw q at e)) h.0
  | inr q ↦ IsOk-object_at a os env o (rw q at e) h.1
]

-- An operation that keeps its object valid keeps them all.
at_object-AreOk :
    (a : ℕ) (f : Cell → Cell) (os : List Object) (env : Env)
    → env.fault ≡ false
    → ((o : Object)
        → object_at a os ≡ some o
        → IsOk (record { obj = o; env = env })
        → IsOk (f (record { obj = o; env = env })))
    → AreOk os env
    → (AreOk (at_object a f os env).0 (at_object a f os env).1)
      × ((at_object a f os env).1.fault ≡ false)
unfolding at_object object_at
at_object-AreOk a f [] env e k h = (h, e)
at_object-AreOk a f (o ∷ os) env e k h = elim (Bool-cases (a == o.address)) [
  | inl q ↦
      let c = f (record { obj = o; env = env }) in
      let ok : IsOk c = (rw q at k o) refl h.0 in
      simp q ((ok, AreOk-env os env c.env ok.valid.sound h.1), ok.valid.sound)
  | inr q ↦
      let (rest, sound) = at_object-AreOk a f os env e (rw q at k) h.1 in
      simp q ((IsOk-env o env (at_object a f os env).1 sound h.0, rest), sound)
]

pub update-IsWhole :
    (a : ℕ) (f : Cell → Cell) (w : World) (o : Object)
    → object_at a w.objects ≡ some o
    → (IsOk (record { obj = o; env = w.env }) → IsOk (f (record { obj = o; env = w.env })))
    → IsWhole w
    → IsWhole (update a f w)
unfolding update
update-IsWhole a f w o e k h =
    let (objects, sound) =
      at_object-AreOk a f w.objects w.env h.sound
        (λ p q.
          subst
            (λ x.
              IsOk (record { obj = x; env = w.env }) → IsOk (f (record { obj = x; env = w.env })))
            (some_inj (sym e ∙ q)) k)
        h.objects in
    record { sound = sound; objects = objects }

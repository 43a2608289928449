-- ===== src/Session/Ledger/Identity.antt =====
-- daemon/proper_object.hpp and daemon/handle.hpp: what of an object stays while requests change it,
-- its row of the ledger and the numbers of its handles.
use partake.Prelude.{ℕ, ◌≡◌, refl, Option, List, [], ◌∷◌, arith, ap}
use partake.Object.{Handle, Object, Cell, set_opens, set_waits_share, set_waits_unique}
use partake.Session.Ledger.{Row, row, Rewrites, same}

abbrev pub ids : List Handle → List ℕ
ids [] = []
ids (h ∷ hs) = h.id ∷ ids hs

abbrev pub core : Object → Row × List ℕ
core o = (row o, ids o.handles)

-- The operation keeps both.
abbrev pub Keeps : (Cell → Cell) → Type 0
Keeps f = (c : Cell) → core (f c).obj ≡ core c.obj

pub Keeps-Rewrites : (f : Cell → Cell) → Keeps f → Rewrites same f
Keeps-Rewrites f k c = ap (λ p. p.0) (k c)

pub Keeps-ids : (f : Cell → Cell) (c : Cell) → Keeps f → ids (f c).obj.handles ≡ ids c.obj.handles
Keeps-ids f c k = ap (λ p. p.1) (k c)

pub ids-set_opens : (i n : ℕ) (hs : List Handle) → ids (set_opens i n hs) ≡ ids hs
unfolding set_opens
ids-set_opens i n [] = refl
ids-set_opens i n (h ∷ hs) = ground (arith, ids-set_opens i n hs)

pub ids-set_waits_share :
    (i : ℕ) (l : List ℕ) (hs : List Handle) → ids (set_waits_share i l hs) ≡ ids hs
unfolding set_waits_share
ids-set_waits_share i l [] = refl
ids-set_waits_share i l (h ∷ hs) = ground (arith, ids-set_waits_share i l hs)

pub ids-set_waits_unique :
    (i : ℕ) (w : Option ℕ) (hs : List Handle) → ids (set_waits_unique i w hs) ≡ ids hs
unfolding set_waits_unique
ids-set_waits_unique i w [] = refl
ids-set_waits_unique i w (h ∷ hs) = ground (arith, ids-set_waits_unique i w hs)

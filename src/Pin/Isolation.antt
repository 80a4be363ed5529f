-- ===== src/Pin/Isolation.antt =====
-- ddtrace/pin.py: what is done to one object leaves the pins of the others.
use dd_trace_py.Base.{ℕ, ◌≡◌, refl, ◌∙◌, ap, Bool, Option, none, List, [], ◌∷◌, String, All}
use dd_trace_py.Base.Text.{Text}
use dd_trace_py.Pin.{
  Arguments, World, seen, view_at, get_from, override, remove_from, configure, new_pin, pin_onto,
}
use dd_trace_py.Pin.Dicts.{fresh-Spares}
use dd_trace_py.Pin.Leaves.{
  Leaves, Leaves-trans, fresh-Leaves, get_from-Leaves, override-Leaves, remove_from-Leaves,
}
use dd_trace_py.Pin.Owners.{given_to, fresh-IsOwned}
use dd_trace_py.Pin.Steps.{IsClosed, Avoids}
use dd_trace_py.Pin.Writes.{
  HasOwners, get_from-HasOwners, override-HasOwners, remove_from-HasOwners, configure-Leaves,
  configure-HasOwners,
}

-- What is done, in order
pub data Use : Type 0 where
  pins : Arguments → ℕ → Use
  gets : ℕ → Use
  overrides : Arguments → ℕ → Use
  configures : String → Option Text → ℕ → Use
  removes : ℕ → Use

abbrev pub acts_on : Use → ℕ
acts_on (pins a obj) = obj
acts_on (gets obj) = obj
acts_on (overrides a obj) = obj
acts_on (configures key value obj) = obj
acts_on (removes obj) = obj

module _ (default : ℕ) (classes : ℕ → List ℕ) (is_true takes_attributes : ℕ → Bool) where
  abbrev pub act : Use → World → World
  act (pins a obj) w = pin_onto default classes is_true takes_attributes a obj w
  act (gets obj) w = (get_from default classes is_true takes_attributes obj w).1
  act (overrides a obj) w = override default classes is_true takes_attributes a obj w
  act (configures key value obj) w =
      configure default classes is_true takes_attributes key value obj w
  act (removes obj) w = remove_from default classes is_true takes_attributes obj w

  abbrev pub run : List Use → World → World
  run [] w = w
  run (u ∷ uses) w = run uses (act u w)

  act-Leaves :
      (u : Use) (chain : List ℕ) (w : World)
      → IsClosed w
      → HasOwners w
      → Avoids (acts_on u) chain
      → Leaves chain w (act u w)
  unfolding pin_onto
  act-Leaves (pins a obj) chain w c o h =
      fresh-Leaves default classes is_true takes_attributes (new_pin default a none w).0 obj chain w
        (new_pin default a none w).1 c (fresh-Spares default a w) h
  act-Leaves (gets obj) chain w c o h =
      get_from-Leaves default classes is_true takes_attributes obj chain w c h
  act-Leaves (overrides a obj) chain w c o h =
      override-Leaves default classes is_true takes_attributes a obj chain w c h
  act-Leaves (configures key value obj) chain w c o h =
      configure-Leaves default classes is_true takes_attributes key value obj chain w c o h
  act-Leaves (removes obj) chain w c o h =
      remove_from-Leaves default classes is_true takes_attributes obj chain w c h

  act-HasOwners : (u : Use) (w : World) → IsClosed w → HasOwners w → HasOwners (act u w)
  unfolding pin_onto
  act-HasOwners (pins a obj) w c (owner, o) =
      let (spares, (le, lt)) = fresh-Spares default a w in
      let (i, w') = new_pin default a none w in
      (
        given_to i.config obj owner,
        fresh-IsOwned default classes is_true takes_attributes owner i obj w w' c o spares le,
      )
  act-HasOwners (gets obj) w c o =
      get_from-HasOwners default classes is_true takes_attributes obj w c o
  act-HasOwners (overrides a obj) w c o =
      override-HasOwners default classes is_true takes_attributes a obj w c o
  act-HasOwners (configures key value obj) w c o =
      configure-HasOwners default classes is_true takes_attributes key value obj w c o
  act-HasOwners (removes obj) w c o =
      remove_from-HasOwners default classes is_true takes_attributes obj w c o

  run-Leaves :
      (uses : List Use) (chain : List ℕ) (w : World)
      → IsClosed w
      → HasOwners w
      → All (λ u. Avoids (acts_on u) chain) uses
      → Leaves chain w (run uses w)
  run-Leaves [] chain w c o h = (c, (refl, refl))
  run-Leaves (u ∷ uses) chain w c o h =
      Leaves-trans chain w (act u w) (run uses (act u w)) (act-Leaves u chain w c o h.0)
        (λ c'. run-Leaves uses chain (act u w) c' (act-HasOwners u w c o) h.1)

  -- Let the numbers of the pins on objects, and of the dicts of pins, be given out, and let each
  -- object that has a pin of its own be the pin's target and the only one with its dict, as in a
  -- world without pins. Then what an object reads of its pin, the contents of its `_config` with
  -- the service included, stays through any sequence of new pins, get_from, override, writes to the
  -- configuration and remove_from on objects that are neither it nor one of its classes, also where
  -- these objects have inherited their pins from the same classes.
  pub run-seen :
      (uses : List Use) (obj : ℕ) (w : World)
      → IsClosed w
      → HasOwners w
      → All (λ u. Avoids (acts_on u) (obj ∷ classes obj)) uses
      → seen default classes is_true takes_attributes obj (run uses w)
        ≡ seen default classes is_true takes_attributes obj w
  run-seen uses obj w c o h =
      let (c', (p, i)) = run-Leaves uses (obj ∷ classes obj) w c o h in
      ap (λ q. view_at q (run uses w)) p ∙ i

-- ===== src/Pin.antt =====
-- ddtrace/pin.py: pins on objects. An attribute that an object lacks is that of its class, so the
-- pins are in a store, and an object can see the pin of another. The dicts `_config`, which `Pin`
-- writes to, are in the store too, and a pin holds the number of its own. Which objects are true,
-- and take attributes, is a parameter, and so are the classes of each in their order; proxies and
-- objects with `__getddpin__` are left out.
pub mod Steps
pub mod Dicts
pub mod Leaves
pub mod Owners
pub mod Writes
pub mod Isolation
pub mod Overriding
use mathlib.Core.Option
use dd_trace_py.Base.{
  ℕ, ◌+◌, Bool, true, false, ◌&&◌, not, Option, none, some, List, [], ◌∷◌, String, string_eq,
  nat_eq, ◌==◌, if◌then◌else◌, nat_beq,
}
use dd_trace_py.Base.Dict.{Dict, lookup, insert, erase}
use dd_trace_py.Base.Text.{Text}
use dd_trace_py.Base.Updates.{or_else}
use dd_trace_py.Ci.Refs.{or_text}
use dd_trace_py.Ci.{get}

abbrev pub PinConfig : Type 0
PinConfig = Dict String (Option Text)

-- The attributes of a pin, less its target; the tracer and the `_config` are numbers.
pub record Info : Type 0 where
  pub app : Option Text
  pub tags : Option (Dict Text Text)
  pub tracer : ℕ
  pub config : ℕ

pub record Pin : Type 0 where
  pub info : Info
  pub target : Option ℕ

-- The pins by number, the next number, the pin that each object has of its own, and the dicts
pub record World : Type 0 where
  pub pins : Dict ℕ Pin
  pub next : ℕ
  pub own : Dict ℕ ℕ
  pub configs : Dict ℕ PinConfig
  pub next_config : ℕ

-- What can be read of a pin now
pub record View : Type 0 where
  pub app : Option Text
  pub tags : Option (Dict Text Text)
  pub tracer : ℕ
  pub config : PinConfig

-- The arguments of `Pin`, `clone` and `override`
pub record Arguments : Type 0 where
  pub service : Option Text
  pub app : Option Text
  pub tags : Option (Dict Text Text)
  pub tracer : Option ℕ

abbrev pub no_arguments : Arguments
no_arguments = record { service = none; app = none; tags = none; tracer = none }

abbrev pub service_name : String
service_name = "service_name"

abbrev pub or_empty : Option PinConfig → PinConfig
or_empty none = []
or_empty (some d) = d

abbrev pub config_at : ℕ → World → PinConfig
config_at c w = or_empty (lookup c w.configs)

abbrev pub view : Info → World → View
view i w = record { app = i.app; tags = i.tags; tracer = i.tracer; config = config_at i.config w }

-- `pin.service`
abbrev pub service_of : View → Option Text
service_of v = get service_name v.config

-- A new dict, whose number is `next_config`
unfoldable pub new_dict : PinConfig → World → World
new_dict d w = record w {
  configs = insert w.next_config d w.configs;
  next_config = w.next_config + 1;
}

-- `_config[key] = value`
unfoldable pub write_item : String → Option Text → ℕ → World → World
write_item key value c w = record w {
  configs = insert c (insert key value (config_at c w)) w.configs;
}

-- `_config or {}`
abbrev pub given_config : ℕ → PinConfig → World → ℕ × World
given_config c [] w = (w.next_config, new_dict [] w)
given_config c (e ∷ d) w = (c, w)

abbrev pub settle_config : Option ℕ → World → ℕ × World
settle_config none w = (w.next_config, new_dict [] w)
settle_config (some c) w = given_config c (config_at c w) w

abbrev pub or_default : ℕ → Option ℕ → ℕ
or_default d none = d
or_default d (some t) = t

-- `Pin(...)`, with a tracer for where none is given
unfoldable pub new_pin : ℕ → Arguments → Option ℕ → World → Info × World
new_pin default a config w =
    let (c, w') = settle_config config w in
    (
      record { app = a.app; tags = a.tags; tracer = or_default default a.tracer; config = c },
      write_item service_name a.service c w',
    )

abbrev pub has_tags : Option (Dict Text Text) → Bool
has_tags none = false
has_tags (some []) = false
has_tags (some (t ∷ tags)) = true

-- `clone`, whose `_config` is a copy
unfoldable pub clone : ℕ → Arguments → Info → World → Info × World
clone default a i w =
    new_pin default
      (record {
        service = or_text a.service (service_of (view i w));
        app = or_text a.app i.app;
        tags = if not (has_tags a.tags) && has_tags i.tags then i.tags else a.tags;
        tracer = or_else a.tracer (some i.tracer);
      })
      (some w.next_config) (new_dict (config_at i.config w) w)

-- The first in the chain that has a pin of its own
abbrev pub first_own : List ℕ → Dict ℕ ℕ → Option ℕ
first_own [] own = none
first_own (obj ∷ chain) own = or_else (lookup obj own) (first_own chain own)

abbrev pub is_target : ℕ → Option ℕ → Bool
is_target obj none = false
is_target obj (some t) = nat_beq t obj

-- A new pin, whose number is `next`
unfoldable pub allocate : Info → World → World
allocate i w = record w {
  pins = insert w.next (record { info = i; target = none }) w.pins;
  next = w.next + 1;
}

abbrev pub retarget : ℕ → ℕ → Option Pin → World → World
retarget p obj none w = w
retarget p obj (some pin) w = record w { pins = insert p (record pin { target = some obj }) w.pins }

abbrev pub view_at : Option ℕ → World → Option View
view_at none w = none
view_at (some p) w = Option.map (λ pin. view pin.info w) (lookup p w.pins)

module _ (default : ℕ) (classes : ℕ → List ℕ) (is_true takes_attributes : ℕ → Bool) where
  abbrev pub pin_of : ℕ → World → Option ℕ
  pin_of obj w = first_own (obj ∷ classes obj) w.own

  -- What an object sees of its pin
  abbrev pub seen : ℕ → World → Option View
  seen obj w = view_at (pin_of obj w) w

  -- `pin.onto(obj)`: the AttributeError of an object that takes no attributes is caught.
  unfoldable pub onto : ℕ → ℕ → World → World
  onto p obj w =
      let w' = retarget p obj (lookup p w.pins) w in
      if takes_attributes obj then record w' { own = insert obj p w'.own } else w'

  -- The rest of `get_from`, with the pin that the attribute gives
  abbrev pub owned : ℕ → Option ℕ → Option Pin → World → Option ℕ × World
  owned obj none pin w = (none, w)
  owned obj (some p) none w = (none, w)
  owned obj (some p) (some pin) w =
      if is_target obj pin.target
      then (some p, w)
      else let (i, w') = clone default no_arguments pin.info w in
        (some w'.next, onto w'.next obj (allocate i w'))

  abbrev pub pin_at : Option ℕ → World → Option Pin
  pin_at none w = none
  pin_at (some p) w = lookup p w.pins

  unfoldable pub get_from : ℕ → World → Option ℕ × World
  get_from obj w = owned obj (pin_of obj w) (pin_at (pin_of obj w) w) w

  abbrev pub overridden : Arguments → Option Pin → World → Info × World
  overridden a none w = new_pin default a none w
  overridden a (some pin) w = clone default a pin.info w

  unfoldable pub override : Arguments → ℕ → World → World
  override a obj w =
      let (p, w1) = get_from obj w in
      let (i, w2) = overridden a (pin_at p w1) w1 in
      if is_true obj then onto w2.next obj (allocate i w2) else w

  abbrev pub removed : ℕ → Option ℕ → World → World
  removed obj none w = w
  removed obj (some p) w = if takes_attributes obj then record w { own = erase obj w.own } else w

  unfoldable pub remove_from : ℕ → World → World
  remove_from obj w = let (p, w') = get_from obj w in removed obj p w'

  abbrev pub written : String → Option Text → Option Pin → World → World
  written key value none w = w
  written key value (some pin) w = write_item key value pin.info.config w

  -- `config.get_from(obj)[key] = value`, with the method of settings/config.py: without a pin the
  -- value is written to a dict that nothing else has.
  unfoldable pub configure : String → Option Text → ℕ → World → World
  configure key value obj w = let (p, w') = get_from obj w in written key value (pin_at p w') w'

  -- `Pin(...).onto(obj)`, as integrations do
  unfoldable pub pin_onto : Arguments → ℕ → World → World
  pin_onto a obj w = let (i, w') = new_pin default a none w in onto w'.next obj (allocate i w')

-- ===== src/Pin/Dicts.antt =====
-- ddtrace/pin.py: the dicts of new pins. `Pin` writes the service into its `_config`, and `clone`
-- gives it a copy, so no dict of a pin that is there is written to.
use dd_trace_py.Base.{
  ℕ, ◌<◌, ◌≤◌, ◌≡◌, refl, ap, arith, Option, none, some, List, [], ◌∷◌, nat_eq, Every, Every-imp,
  string_eq, Option-cases, inl, inr,
}
use dd_trace_py.Base.{String}
use dd_trace_py.Base.Dict.{lookup, insert, lookup-insert}
use dd_trace_py.Base.Text.{Text}
use dd_trace_py.Pin.{
  Info, Arguments, World, PinConfig, config_at, new_dict, write_item, given_config, settle_config,
  new_pin, clone, view_at, first_own, or_empty, service_name,
}
use dd_trace_py.Pin.Steps.{IsClosed, SameFor, config-given}

-- The dicts that were given out are as they were, and so is all else but new dicts.
pub record Spares (w w' : World) : Type 0 where
  pub pins : w'.pins ≡ w.pins
  pub next : w'.next ≡ w.next
  pub own : w'.own ≡ w.own
  pub grown : w.next_config ≤ w'.next_config
  pub dicts : (c : ℕ) → c < w.next_config → lookup c w'.configs ≡ lookup c w.configs

Spares-refl : (w : World) → Spares w w
Spares-refl w = record {
  pins = refl;
  next = refl;
  own = refl;
  grown = omega arith;
  dicts = λ c lt. refl;
}

new_dict-Spares : (d : PinConfig) (w0 w : World) → Spares w0 w → Spares w0 (new_dict d w)
unfolding new_dict
new_dict-Spares d w0 w h = record {
  pins = h.pins;
  next = h.next;
  own = h.own;
  grown = omega (arith, h.grown);
  dicts =
      λ c lt. ground (arith, lt, h.grown, h.dicts c lt, lookup-insert w.next_config c d w.configs);
}

write_item-Spares :
    (key : String) (value : Option Text) (c : ℕ) (w0 w : World)
    → Spares w0 w
    → w0.next_config ≤ c
    → Spares w0 (write_item key value c w)
unfolding write_item
write_item-Spares key value c w0 w h le = record {
  pins = h.pins;
  next = h.next;
  own = h.own;
  grown = h.grown;
  dicts = λ j lt.
      ground (
        arith,
        lt,
        le,
        h.dicts j lt,
        lookup-insert c j (insert key value (config_at c w)) w.configs,
      );
}

-- A dict that was given out since
abbrev pub IsNew : World → World → ℕ → Type 0
IsNew w0 w c = (w0.next_config ≤ c) × (c < w.next_config)

Settled : World → ℕ × World → Type 0
Settled w0 (c, w) = Spares w0 w × IsNew w0 w c

given_config-Settled :
    (c : ℕ) (d : PinConfig) (w0 w : World)
    → Spares w0 w
    → IsNew w0 w c
    → Settled w0 (given_config c d w)
unfolding Settled new_dict
given_config-Settled c [] w0 w h new = (new_dict-Spares [] w0 w h, (h.grown, omega arith))
given_config-Settled c (e ∷ d) w0 w h new = (h, new)

settle_config-Settled :
    (o : Option ℕ) (w0 w : World)
    → Spares w0 w
    → Every (IsNew w0 w) o
    → Settled w0 (settle_config o w)
unfolding Settled new_dict
settle_config-Settled none w0 w h new = (new_dict-Spares [] w0 w h, (h.grown, omega arith))
settle_config-Settled (some c) w0 w h new = given_config-Settled c (config_at c w) w0 w h new

new_pin-Spares :
    (default : ℕ) (a : Arguments) (o : Option ℕ) (w0 w : World)
    → Spares w0 w
    → Every (IsNew w0 w) o
    → let (i, w') = new_pin default a o w in Spares w0 w' × IsNew w0 w' i.config
unfolding new_pin Settled write_item
new_pin-Spares default a o w0 w h new =
    let (spares, (le, lt)) = settle_config-Settled o w0 w h new in
    (
      write_item-Spares service_name a.service (settle_config o w).0 w0 (settle_config o w).1 spares
          le,
      (le, lt),
    )

pub fresh-Spares :
    (default : ℕ) (a : Arguments) (w : World)
    → let (i, w') = new_pin default a none w in Spares w w' × IsNew w w' i.config
fresh-Spares default a w = new_pin-Spares default a none w w (Spares-refl w) tt

pub clone-Spares :
    (default : ℕ) (a : Arguments) (i : Info) (w : World)
    → let (i', w') = clone default a i w in Spares w w' × IsNew w w' i'.config
unfolding clone new_dict
clone-Spares default a i w =
    new_pin-Spares default _ (some w.next_config) w (new_dict (config_at i.config w) w)
      (new_dict-Spares (config_at i.config w) w w (Spares-refl w)) (omega arith, omega arith)

view_at-Spares :
    (w w' : World) (o : Option ℕ) → Spares w w' → IsClosed w → view_at o w' ≡ view_at o w
view_at-Spares w w' none h c = refl
view_at-Spares w w' (some p) h c = elim (Option-cases (lookup p w.pins)) [
  | inl missing ↦ rw (h.pins, missing) refl
  | inr (pin, there) ↦
      rw (h.pins, there)
        (ap
          (λ d. some (record {
            app = pin.info.app;
            tags = pin.info.tags;
            tracer = pin.info.tracer;
            config = or_empty d;
          }))
          (h.dicts pin.info.config (config-given p pin w c there)))
]

pub Spares-SameFor : (chain : List ℕ) (w w' : World) → Spares w w' → IsClosed w → SameFor chain w w'
Spares-SameFor chain w w' h c =
    (ap (first_own chain) h.own, view_at-Spares w w' (first_own chain w.own) h c)

pub Spares-IsClosed : (w w' : World) → Spares w w' → IsClosed w → IsClosed w'
Spares-IsClosed w w' h c = record {
  owned = λ obj. rw (h.own, h.next) (c.owned obj);
  held = λ p. rw h.pins (
      Every-imp (λ pin. pin.info.config < w.next_config) (λ pin. pin.info.config < w'.next_config)
        (λ pin lt. omega (arith, lt, h.grown)) (lookup p w.pins) (c.held p));
}

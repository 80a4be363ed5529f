-- ===== src/Pin/Overriding.antt =====
-- ddtrace/pin.py: the service that an object has after `override`.
use mathlib.Core.Option
use dd_trace_py.Base.{
  ℕ, ◌≡◌, refl, ◌∙◌, sym, ap, Bool, true, false, Option, none, some, List, nat_eq, beq_refl,
  if◌then◌else◌, string_eq, Bool-cases, Option-cases, inl, inr,
}
use dd_trace_py.Base.Text.{Text}
use dd_trace_py.Base.Dict.{lookup, insert, lookup-insert}
use dd_trace_py.Ci.{flat}
use dd_trace_py.Ci.Refs.{or_text}
use dd_trace_py.Pin.{
  Info, View, Pin, Arguments, no_arguments, service_name, service_of, view, view_at, config_at,
  or_empty, new_dict, write_item, settle_config, new_pin, World, is_target, allocate, retarget,
  pin_of, seen, onto, owned, pin_at, get_from, overridden, override, clone,
}

-- The service of the pin that is there, if one is
abbrev pub service_seen : Option View → Option (Option Text)
service_seen o = Option.map service_of o

-- The service of a new pin, or of a clone
abbrev pub overriding : Option Text → Option (Option Text) → Option Text
overriding given none = given
overriding given (some service) = or_text given service

service_of-new_pin :
    (d : ℕ) (a : Arguments) (o : Option ℕ) (w : World)
    → let (i, w') = new_pin d a o w in service_of (view i w') ≡ a.service
unfolding new_pin write_item
service_of-new_pin d a o w =
    let (c, w1) = settle_config o w in
    ap (λ x. flat (lookup service_name (or_empty x)))
      (lookup-insert c c (insert service_name a.service (config_at c w1)) w1.configs
        ∙ ap
            (λ b.
              if b
              then some (insert service_name a.service (config_at c w1))
              else lookup c w1.configs)
            (beq_refl c))
    ∙ ap flat (lookup-insert service_name service_name a.service (config_at c w1))

service_of-clone :
    (d : ℕ) (a : Arguments) (i : Info) (w : World)
    → let (i', w') = clone d a i w in
      service_of (view i' w') ≡ or_text a.service (service_of (view i w))
unfolding clone
service_of-clone d a i w =
    service_of-new_pin d _ (some w.next_config) (new_dict (config_at i.config w) w)

retarget-view :
    (p obj : ℕ) (o : Option Pin) (w : World)
    → o ≡ lookup p w.pins
    → view_at (some p) (retarget p obj o w) ≡ view_at (some p) w
retarget-view p obj none w e = refl
retarget-view p obj (some pin) w e =
    rw (lookup-insert p p (record pin { target = some obj }) w.pins, beq_refl p, sym e) refl

retarget-own : (p obj : ℕ) (o : Option Pin) (w : World) → (retarget p obj o w).own ≡ w.own
retarget-own p obj none w = refl
retarget-own p obj (some pin) w = refl

attach-view :
    (b : Bool) (p obj : ℕ) (o : Option ℕ) (w : World)
    → view_at o (if b then record w { own = insert obj p w.own } else w) ≡ view_at o w
attach-view true p obj none w = refl
attach-view true p obj (some q) w = refl
attach-view false p obj o w = refl

allocate-view : (i : Info) (w : World) → view_at (some w.next) (allocate i w) ≡ some (view i w)
unfolding allocate
allocate-view i w =
    rw (lookup-insert w.next w.next (record { info = i; target = none }) w.pins, beq_refl w.next)
      refl

module _ (default : ℕ) (classes : ℕ → List ℕ) (is_true takes_attributes : ℕ → Bool) where
  new-view :
      (i : Info) (obj : ℕ) (w : World)
      → view_at
          (some w.next)
          (onto default classes is_true takes_attributes w.next obj (allocate i w))
        ≡ some (view i w)
  unfolding onto allocate
  new-view i obj w =
      let w1 = allocate i w in
      let w2 = retarget w.next obj (lookup w.next w1.pins) w1 in
      attach-view (takes_attributes obj) w.next obj (some w.next) w2
      ∙ retarget-view w.next obj (lookup w.next w1.pins) w1 refl
      ∙ allocate-view i w

  new-seen :
      (i : Info) (obj : ℕ) (w : World)
      → takes_attributes obj ≡ true
      → seen default classes is_true takes_attributes obj
          (onto default classes is_true takes_attributes w.next obj (allocate i w))
        ≡ some (view i w)
  unfolding onto allocate
  new-seen i obj w takes =
      let w1 = allocate i w in
      let w2 = retarget w.next obj (lookup w.next w1.pins) w1 in
      rw takes (
        rw (lookup-insert obj obj w.next w2.own, beq_refl obj)
          (retarget-view w.next obj (lookup w.next w1.pins) w1 refl ∙ allocate-view i w))

  owned-service :
      (obj : ℕ) (o : Option ℕ) (pin : Option Pin) (w : World)
      → pin ≡ pin_at default classes is_true takes_attributes o w
      → let (p, w') = owned default classes is_true takes_attributes obj o pin w in
        service_seen (view_at p w') ≡ service_seen (view_at o w)
  owned-service obj none pin w e = refl
  owned-service obj (some p) none w e = rw (sym e) refl
  owned-service obj (some p) (some pin) w e = elim (Bool-cases (is_target obj pin.target)) [
    | inl on ↦ rw on refl
    | inr other ↦ rw other (
        ap service_seen (
          new-view (clone default no_arguments pin.info w).0 obj
            (clone default no_arguments pin.info w).1)
        ∙ ap some (service_of-clone default no_arguments pin.info w)
        ∙ ap (λ o. service_seen (Option.map (λ pin. view pin.info w) o)) e)
  ]

  overridden-service :
      (a : Arguments) (o : Option ℕ) (w : World)
      → let (i, w') =
          overridden default classes is_true takes_attributes a
            (pin_at default classes is_true takes_attributes o w)
            w in
        service_of (view i w') ≡ overriding a.service (service_seen (view_at o w))
  overridden-service a none w = service_of-new_pin default a none w
  overridden-service a (some p) w = elim (Option-cases (lookup p w.pins)) [
    | inl missing ↦ rw missing (service_of-new_pin default a none w)
    | inr (pin, there) ↦ rw there (service_of-clone default a pin.info w)
  ]

  -- After `override` of an object that is true and takes attributes, the object sees a pin. Its
  -- service is the one given; where that is None or empty and the object saw a pin before, its own or
  -- that of a class, it is the service of that pin.
  pub override-service :
      (a : Arguments) (obj : ℕ) (w : World)
      → is_true obj ≡ true
      → takes_attributes obj ≡ true
      → Option.map service_of (
          seen default classes is_true takes_attributes obj
            (override default classes is_true takes_attributes a obj w))
        ≡ some (
            overriding a.service
              (service_seen (seen default classes is_true takes_attributes obj w)))
  unfolding override get_from
  override-service a obj w on takes =
      let (p, w1) = get_from default classes is_true takes_attributes obj w in
      let (i, w2) =
        overridden default classes is_true takes_attributes a
          (pin_at default classes is_true takes_attributes p w1) w1 in
      rw on (
        ap (Option.map service_of) (new-seen i obj w2 takes)
        ∙ ap some (
            overridden-service a p w1
            ∙ ap (overriding a.service) (
                owned-service obj (pin_of default classes is_true takes_attributes obj w)
                  (pin_at default classes is_true takes_attributes
                    (pin_of default classes is_true takes_attributes obj w) w)
                  w refl)))

-- ===== src/Pin/Owners.antt =====
-- ddtrace/pin.py: each object that has a pin of its own is the target of the pin and the only one
-- with its dict, so what is written to the dict shows in no other object.
use mathlib.Core.Option.{some-injective}
use dd_trace_py.Base.{
  ℕ, ◌<◌, ◌≤◌, ◌≡◌, refl, ◌∙◌, sym, ap, arith, Bool, true, false, Option, none, some, List, [], ◌∷◌,
  string_eq, nat_eq, nat_beq, if◌then◌else◌, Every, Bool-cases, Option-cases, inl, inr, beq_refl,
}
use dd_trace_py.Base.Dict.{Dict, lookup, insert, lookup-insert}
use dd_trace_py.Pin.{
  Info, Pin, no_arguments, World, is_target, allocate, first_own, pin_of, onto, owned, pin_at,
  clone,
}
use dd_trace_py.Pin.Dicts.{Spares, clone-Spares}
use dd_trace_py.Pin.Steps.{IsClosed, config-given, retarget-own}

-- A pin that an object has of its own is on that object, and so is its dict.
abbrev pub IsOwned : (ℕ → ℕ) → World → Type 0
IsOwned owner w =
    (j p : ℕ) (pin : Pin)
    → lookup j w.own ≡ some p
    → lookup p w.pins ≡ some pin
    → (pin.target ≡ some j) × (owner pin.info.config ≡ j)

-- The owners once a dict is given to an object
abbrev pub given_to : ℕ → ℕ → (ℕ → ℕ) → ℕ → ℕ
given_to c obj owner d = if nat_beq c d then obj else owner d

given_to-new : (c obj : ℕ) (owner : ℕ → ℕ) → given_to c obj owner c ≡ obj
given_to-new c obj owner = rw (beq_refl c) refl

given_to-old : (c obj d : ℕ) (owner : ℕ → ℕ) → d < c → given_to c obj owner d ≡ owner d
given_to-old c obj d owner lt = ground (arith, lt)

-- A new pin of an object
on_object : Info → ℕ → Pin
on_object i obj = record { info = i; target = some obj }

Spares-IsOwned : (owner : ℕ → ℕ) (w w' : World) → Spares w w' → IsOwned owner w → IsOwned owner w'
Spares-IsOwned owner w w' h o j p pin a b =
    o j p pin (ap (lookup j) (sym h.own) ∙ a) (ap (lookup p) (sym h.pins) ∙ b)

-- The pins that objects have are older than a new one, and so are their dicts.
old_pin :
    (w : World) (i : Info) (obj j p : ℕ) (pin : Pin)
    → IsClosed w
    → lookup j w.own ≡ some p
    → (if nat_beq w.next p then some (on_object i obj) else lookup p w.pins) ≡ some pin
    → lookup p w.pins ≡ some pin
old_pin w i obj j p pin c a b =
    let older : p < w.next = (let lt = c.owned j in rw a at lt) in ground (arith, older, b)

put_old :
    (owner : ℕ → ℕ) (i : Info) (obj : ℕ) (w : World)
    → IsClosed w
    → IsOwned owner w
    → w.next_config ≤ i.config
    → (j p : ℕ) (pin : Pin) → lookup j w.own ≡ some p
    → (if nat_beq w.next p then some (on_object i obj) else lookup p w.pins) ≡ some pin
    → (pin.target ≡ some j) × (given_to i.config obj owner pin.info.config ≡ j)
put_old owner i obj w c o le j p pin x y =
    let there = old_pin w i obj j p pin c x y in
    let (target, mine) = o j p pin x there in
    (
      target,
      given_to-old i.config obj pin.info.config owner
            (omega (arith, le, config-given p pin w c there))
          ∙ mine,
    )

put_new :
    (owner : ℕ → ℕ) (i : Info) (obj : ℕ) (w : World) (p : ℕ) (pin : Pin)
    → w.next ≡ p
    → (if nat_beq w.next p then some (on_object i obj) else lookup p w.pins) ≡ some pin
    → (pin.target ≡ some obj) × (given_to i.config obj owner pin.info.config ≡ obj)
unfolding on_object
put_new owner i obj w p pin e y =
    let same : on_object i obj ≡ pin = some-injective _ _ (ground (arith, e, y)) in
    (
      ap (λ q. q.target) (sym same),
      ap (λ q. given_to i.config obj owner q.info.config) (sym same)
          ∙ given_to-new i.config obj owner,
    )

put-IsOwned :
    (b : Bool) (owner : ℕ → ℕ) (i : Info) (obj : ℕ) (w : World)
    → IsClosed w
    → IsOwned owner w
    → w.next_config ≤ i.config
    → (j p : ℕ) (pin : Pin) → lookup j (if b then insert obj w.next w.own else w.own) ≡ some p
    → (if nat_beq w.next p then some (on_object i obj) else lookup p w.pins) ≡ some pin
    → (pin.target ≡ some j) × (given_to i.config obj owner pin.info.config ≡ j)
put-IsOwned false owner i obj w c o le j p pin x y = put_old owner i obj w c o le j p pin x y
put-IsOwned true owner i obj w c o le j p pin x y =
    let x' = sym (lookup-insert obj j w.next w.own) ∙ x in
    elim (Bool-cases (nat_beq obj j)) [
      | inl same ↦
          let (t, m) =
            put_new owner i obj w p pin (some-injective _ _ (ground (arith, same, x'))) y in
          let at_j = (nat_eq.beq_iff obj j).0 same in (t ∙ ap some at_j, m ∙ at_j)
      | inr other ↦ put_old owner i obj w c o le j p pin (ground (arith, other, x')) y
    ]

module _ (default : ℕ) (classes : ℕ → List ℕ) (is_true takes_attributes : ℕ → Bool) where
  retargeted :
      (p obj q : ℕ) (i : Info) (w : World)
      → lookup p w.pins ≡ some (record { info = i; target = none })
      → lookup q (onto default classes is_true takes_attributes p obj w).pins
        ≡ (if nat_beq p q then some (on_object i obj) else lookup q w.pins)
  unfolding onto on_object
  retargeted p obj q i w e = elim (Bool-cases (takes_attributes obj)) [
    | inl on ↦ rw (on, e) (lookup-insert p q (on_object i obj) w.pins)
    | inr off ↦ rw (off, e) (lookup-insert p q (on_object i obj) w.pins)
  ]

  fresh-pins :
      (i : Info) (obj q : ℕ) (w : World)
      → lookup q (onto default classes is_true takes_attributes w.next obj (allocate i w)).pins
        ≡ (if nat_beq w.next q then some (on_object i obj) else lookup q w.pins)
  unfolding allocate
  fresh-pins i obj q w =
      let new =
        lookup-insert w.next w.next (record { info = i; target = none }) w.pins
        ∙ ap (λ b. if b then some (record { info = i; target = none }) else lookup w.next w.pins)
            (beq_refl w.next) in
      retargeted w.next obj q i (allocate i w) new ∙ elim (Bool-cases (nat_beq w.next q)) [
        | inl same ↦ rw same refl
        | inr other ↦
            rw (lookup-insert w.next q (record { info = i; target = none }) w.pins, other) refl
      ]

  fresh-own :
      (i : Info) (obj : ℕ) (w : World)
      → (onto default classes is_true takes_attributes w.next obj (allocate i w)).own
        ≡ (if takes_attributes obj then insert obj w.next w.own else w.own)
  unfolding allocate onto
  fresh-own i obj w =
      let w1 = allocate i w in
      let same = retarget-own w.next obj (lookup w.next w1.pins) w1 in
      elim (Bool-cases (takes_attributes obj)) [
        | inl on ↦ rw on (ap (insert obj w.next) same)
        | inr off ↦ rw off same
      ]

  pub fresh-IsOwned :
      (owner : ℕ → ℕ) (i : Info) (obj : ℕ) (w w' : World)
      → IsClosed w
      → IsOwned owner w
      → Spares w w'
      → w.next_config ≤ i.config
      → IsOwned
          (given_to i.config obj owner)
          (onto default classes is_true takes_attributes w'.next obj (allocate i w'))
  fresh-IsOwned owner i obj w w' c o h le j p pin x y =
      let t = takes_attributes obj in
      let own =
        fresh-own i obj w'
        ∙ ap (λ n. if t then insert obj n w'.own else w'.own) h.next
        ∙ ap (λ d. if t then insert obj w.next d else d) h.own in
      let pins =
        fresh-pins i obj p w'
        ∙ ap (λ n. if nat_beq n p then some (on_object i obj) else lookup p w'.pins) h.next
        ∙ ap (λ d. if nat_beq w.next p then some (on_object i obj) else lookup p d) h.pins in
      put-IsOwned t owner i obj w c o le j p pin (sym (ap (lookup j) own) ∙ x) (sym pins ∙ y)

  -- The world has owners, and those of the pin's dict is the object.
  abbrev pub Has : ℕ → Option Pin → World → Type 0
  Has obj o w = (owner : ℕ → ℕ) × IsOwned owner w × Every (λ pin. owner pin.info.config ≡ obj) o

  first_own-owner :
      (chain : List ℕ) (own : Dict ℕ ℕ) (p : ℕ)
      → first_own chain own ≡ some p
      → (k : ℕ) × (lookup k own ≡ some p)
  first_own-owner [] own p e = absurd (ground (arith, e))
  first_own-owner (k ∷ chain) own p e = elim (Option-cases (lookup k own)) [
    | inl missing ↦ first_own-owner chain own p (ground (arith, e, missing))
    | inr (q, there) ↦ (k, ground (arith, e, there))
  ]

  target_is : (obj k : ℕ) (o : Option ℕ) → o ≡ some k → is_target obj o ≡ true → k ≡ obj
  target_is obj k o e h = ground (arith, e, h)

  pub owned-Has :
      (owner : ℕ → ℕ) (obj : ℕ) (o : Option ℕ) (pin : Option Pin) (w : World)
      → IsClosed w
      → IsOwned owner w
      → pin_of default classes is_true takes_attributes obj w ≡ o
      → pin_at default classes is_true takes_attributes o w ≡ pin
      → let (p, w') = owned default classes is_true takes_attributes obj o pin w in
        Has obj (pin_at default classes is_true takes_attributes p w') w'
  unfolding on_object
  owned-Has owner obj none pin w c h e f = (owner, h, tt)
  owned-Has owner obj (some p) none w c h e f = (owner, h, tt)
  owned-Has owner obj (some p) (some pin) w c h e f = elim (Bool-cases (is_target obj pin.target)) [
    | inl on ↦
        let (k, there) = first_own-owner (obj ∷ classes obj) w.own p e in
        let (target, mine) = h k p pin there f in
        rw on (owner, h, rw f (mine ∙ target_is obj k pin.target target on))
    | inr other ↦
        let (i, w1) = clone default no_arguments pin.info w in
        let (spares, (le, lt)) = clone-Spares default no_arguments pin.info w in
        rw other (
          given_to i.config obj owner,
          fresh-IsOwned owner i obj w w1 c h spares le,
          rw (fresh-pins i obj w1.next w1, beq_refl w1.next) (given_to-new i.config obj owner),
        )
  ]

-- ===== src/Pin/Writes.antt =====
-- ddtrace/pin.py and `Config.get_from` of ddtrace/settings/config.py: what is written to the dict
-- of one object's pin does not show in the pins of the others.
use dd_trace_py.Base.{
  ℕ, ◌≡◌, refl, ◌∙◌, sym, ap, arith, Bool, false, Option, none, some, List, [], ◌∷◌, String,
  string_eq, nat_eq, nat_beq, Every, Bool-cases, Option-cases, inl, inr,
}
use dd_trace_py.Base.Dict.{Dict, lookup, insert, lookup-insert, lookup-erase}
use dd_trace_py.Base.Text.{Text}
use dd_trace_py.Pin.{
  Info, Pin, Arguments, World, first_own, pin_at, view_at, get_from, overridden, override, removed,
  remove_from, write_item, written, configure, config_at,
}
use dd_trace_py.Pin.Leaves.{Leaves, Leaves-trans, get_from-Leaves, overridden-Spares}
use dd_trace_py.Pin.Owners.{IsOwned, given_to, Has, owned-Has, fresh-IsOwned}
use dd_trace_py.Pin.Steps.{IsClosed, Avoids}

-- Each dict that a pin on an object has is of that object alone.
abbrev pub HasOwners : World → Type 0
HasOwners w = (owner : ℕ → ℕ) × IsOwned owner w

first_own-other :
    (obj : ℕ) (chain : List ℕ) (own : Dict ℕ ℕ) (p : ℕ)
    → Avoids obj chain
    → first_own chain own ≡ some p
    → (k : ℕ) × (lookup k own ≡ some p) × (nat_beq obj k ≡ false)
first_own-other obj [] own p h e = absurd (ground (arith, e))
first_own-other obj (k ∷ chain) own p h e = elim (Option-cases (lookup k own)) [
  | inl missing ↦ first_own-other obj chain own p h.1 (ground (arith, e, missing))
  | inr (q, there) ↦ (k, ground (arith, e, there), h.0)
]

other_dict :
    (owner : ℕ → ℕ) (obj k c d : ℕ)
    → owner c ≡ obj
    → owner d ≡ k
    → nat_beq obj k ≡ false
    → nat_beq c d ≡ false
other_dict owner obj k c d e f other = elim (Bool-cases (nat_beq c d)) [
  | inl same ↦ absurd (ground (arith, other, sym e ∙ ap owner ((nat_eq.beq_iff c d).0 same) ∙ f))
  | inr differs ↦ differs
]

write_item-view :
    (key : String) (value : Option Text) (c : ℕ) (i : Info) (w : World)
    → nat_beq c i.config ≡ false
    → config_at i.config (write_item key value c w) ≡ config_at i.config w
unfolding write_item
write_item-view key value c i w other =
    rw (lookup-insert c i.config (insert key value (config_at c w)) w.configs, other) refl

write_item-SameFor :
    (owner : ℕ → ℕ) (key : String) (value : Option Text) (c obj : ℕ) (chain : List ℕ) (w : World)
    → IsOwned owner w
    → owner c ≡ obj
    → Avoids obj chain
    → (o : Option ℕ) → first_own chain w.own ≡ o
    → view_at o (write_item key value c w) ≡ view_at o w
unfolding write_item
write_item-SameFor owner key value c obj chain w h mine avoids none e = refl
write_item-SameFor owner key value c obj chain w h mine avoids (some p) e =
    elim (Option-cases (lookup p w.pins)) [
      | inl missing ↦ rw missing refl
      | inr (pin, there) ↦
          let (k, owns, other) = first_own-other obj chain w.own p avoids e in
          let differs =
            other_dict owner obj k c pin.info.config mine (h k p pin owns there).1 other in
          rw there (
            ap
              (λ d. some (record {
                app = pin.info.app;
                tags = pin.info.tags;
                tracer = pin.info.tracer;
                config = d;
              }))
              (write_item-view key value c pin.info w differs))
    ]

module _ (default : ℕ) (classes : ℕ → List ℕ) (is_true takes_attributes : ℕ → Bool) where
  get_from-Has :
      (owner : ℕ → ℕ) (obj : ℕ) (w : World)
      → IsClosed w
      → IsOwned owner w
      → let (p, w') = get_from default classes is_true takes_attributes obj w in
        Has default classes is_true takes_attributes obj
          (pin_at default classes is_true takes_attributes p w')
          w'
  unfolding get_from
  get_from-Has owner obj w c h =
      owned-Has default classes is_true takes_attributes owner obj _ _ w c h refl refl

  pub get_from-HasOwners :
      (obj : ℕ) (w : World)
      → IsClosed w
      → HasOwners w
      → HasOwners (get_from default classes is_true takes_attributes obj w).1
  get_from-HasOwners obj w c (owner, h) =
      let (owner', h', mine) = get_from-Has owner obj w c h in (owner', h')

  pub override-HasOwners :
      (a : Arguments) (obj : ℕ) (w : World)
      → IsClosed w
      → HasOwners w
      → HasOwners (override default classes is_true takes_attributes a obj w)
  unfolding override
  override-HasOwners a obj w c (owner, h) =
      let (p, w1) = get_from default classes is_true takes_attributes obj w in
      let o = pin_at default classes is_true takes_attributes p w1 in
      let (i, w2) = overridden default classes is_true takes_attributes a o w1 in
      let (owner', h', mine) = get_from-Has owner obj w c h in
      let (c1, same) = get_from-Leaves default classes is_true takes_attributes obj [] w c tt in
      let (spares, (le, lt)) = overridden-Spares default classes is_true takes_attributes a o w1 in
      elim (Bool-cases (is_true obj)) [
        | inl on ↦ rw on (
          given_to i.config obj owner',
          fresh-IsOwned default classes is_true takes_attributes owner' i obj w1 w2 c1 h' spares le,
        )
        | inr off ↦ rw off (owner, h)
      ]

  removed-HasOwners :
      (obj : ℕ) (o : Option ℕ) (w : World)
      → HasOwners w
      → HasOwners (removed default classes is_true takes_attributes obj o w)
  removed-HasOwners obj none w h = h
  removed-HasOwners obj (some q) w (owner, h) = elim (Bool-cases (takes_attributes obj)) [
    | inl on ↦
        rw on
          (owner, λ j p pin x y. h j p pin (ground (arith, sym (lookup-erase obj j w.own) ∙ x)) y)
    | inr off ↦ rw off (owner, h)
  ]

  pub remove_from-HasOwners :
      (obj : ℕ) (w : World)
      → IsClosed w
      → HasOwners w
      → HasOwners (remove_from default classes is_true takes_attributes obj w)
  unfolding remove_from
  remove_from-HasOwners obj w c h =
      removed-HasOwners obj (get_from default classes is_true takes_attributes obj w).0
        (get_from default classes is_true takes_attributes obj w).1 (get_from-HasOwners obj w c h)

  written-Leaves :
      (owner : ℕ → ℕ) (key : String) (value : Option Text) (obj : ℕ) (o : Option Pin)
      (chain : List ℕ) (w : World)
      → IsClosed w
      → IsOwned owner w
      → Every (λ pin. owner pin.info.config ≡ obj) o
      → Avoids obj chain
      → Leaves chain w (written default classes is_true takes_attributes key value o w)
  unfolding write_item
  written-Leaves owner key value obj none chain w c h mine avoids = (c, (refl, refl))
  written-Leaves owner key value obj (some pin) chain w c h mine avoids = (
    record { owned = c.owned; held = c.held },
    (
      refl,
      write_item-SameFor owner key value pin.info.config obj chain w h mine avoids
          (first_own chain w.own) refl,
    ),
  )

  written-HasOwners :
      (key : String) (value : Option Text) (o : Option Pin) (w : World)
      → HasOwners w
      → HasOwners (written default classes is_true takes_attributes key value o w)
  unfolding write_item
  written-HasOwners key value none w h = h
  written-HasOwners key value (some pin) w h = h

  pub configure-Leaves :
      (key : String) (value : Option Text) (obj : ℕ) (chain : List ℕ) (w : World)
      → IsClosed w
      → HasOwners w
      → Avoids obj chain
      → Leaves chain w (configure default classes is_true takes_attributes key value obj w)
  unfolding configure
  configure-Leaves key value obj chain w c (owner, h) avoids =
      let (p, w1) = get_from default classes is_true takes_attributes obj w in
      let o = pin_at default classes is_true takes_attributes p w1 in
      let (owner', h', mine) = get_from-Has owner obj w c h in
      Leaves-trans chain w w1 (written default classes is_true takes_attributes key value o w1)
        (get_from-Leaves default classes is_true takes_attributes obj chain w c avoids)
        (λ c1. written-Leaves owner' key value obj o chain w1 c1 h' mine avoids)

  pub configure-HasOwners :
      (key : String) (value : Option Text) (obj : ℕ) (w : World)
      → IsClosed w
      → HasOwners w
      → HasOwners (configure default classes is_true takes_attributes key value obj w)
  unfolding configure
  configure-HasOwners key value obj w c h =
      written-HasOwners key value _ (get_from default classes is_true takes_attributes obj w).1
        (get_from-HasOwners obj w c h)

-- ===== src/Pin/Leaves.antt =====
-- ddtrace/pin.py: what an operation on one object leaves for the others.
use dd_trace_py.Base.{
  ℕ, ◌<◌, refl, arith, Bool, Option, none, some, List, nat_eq, if◌then◌else◌, Bool-cases, inl, inr,
}
use dd_trace_py.Base.Dict.{lookup, insert, erase}
use dd_trace_py.Pin.{
  first_own, Info, Pin, Arguments, no_arguments, World, is_target, allocate, retarget, onto, owned,
  pin_at, get_from, overridden, override, removed, remove_from, clone,
}
use dd_trace_py.Pin.Dicts.{
  Spares, IsNew, fresh-Spares, clone-Spares, Spares-SameFor, Spares-IsClosed,
}
use dd_trace_py.Pin.Steps.{
  IsClosed, Avoids, SameFor, SameFor-trans, retarget-SameFor, attach-SameFor, attach-IsClosed,
  detach-IsClosed, allocate-SameFor, allocate-IsClosed, retarget-IsClosed, retarget-next,
  first_own-erase, view_at-own,
}

-- The numbers stay given out, and a chain without the object sees what it saw.
abbrev pub Leaves : List ℕ → World → World → Type 0
Leaves chain w w' = IsClosed w' × SameFor chain w w'

pub Leaves-trans :
    (chain : List ℕ) (u v w : World)
    → Leaves chain u v
    → (IsClosed v → Leaves chain v w)
    → Leaves chain u w
Leaves-trans chain u v w (c, same) after =
    let (c', same') = after c in (c', SameFor-trans chain u v w same same')

module _ (default : ℕ) (classes : ℕ → List ℕ) (is_true takes_attributes : ℕ → Bool) where
  onto-Leaves :
      (p obj : ℕ) (chain : List ℕ) (w : World)
      → IsClosed w
      → p < w.next
      → Avoids obj chain
      → Leaves chain w (onto default classes is_true takes_attributes p obj w)
  unfolding onto
  onto-Leaves p obj chain w c lt h =
      let w' = retarget p obj (lookup p w.pins) w in
      (
        attach-IsClosed (takes_attributes obj) p obj w' (retarget-IsClosed p obj w c)
            (rw (retarget-next p obj (lookup p w.pins) w) lt),
        SameFor-trans chain w w'
            (if takes_attributes obj then record w' { own = insert obj p w'.own } else w')
            (retarget-SameFor p obj chain w)
            (attach-SameFor (takes_attributes obj) p obj chain w' h),
      )

  -- A new pin that is put on the object, after what spares the dicts that are there
  pub fresh-Leaves :
      (i : Info) (obj : ℕ) (chain : List ℕ) (w w' : World)
      → IsClosed w
      → Spares w w' × IsNew w w' i.config
      → Avoids obj chain
      → Leaves chain w (onto default classes is_true takes_attributes w'.next obj (allocate i w'))
  unfolding allocate
  fresh-Leaves i obj chain w w' c (spares, (le, lt)) h =
      let c' = Spares-IsClosed w w' spares c in
      Leaves-trans chain w w'
        (onto default classes is_true takes_attributes w'.next obj (allocate i w'))
        (c', Spares-SameFor chain w w' spares c)
        (λ c1.
          Leaves-trans chain w' (allocate i w')
            (onto default classes is_true takes_attributes w'.next obj (allocate i w'))
            (allocate-IsClosed i w' c' lt, allocate-SameFor i chain w' c')
            (λ c2. onto-Leaves w'.next obj chain (allocate i w') c2 (omega arith) h))

  owned-Leaves :
      (obj : ℕ) (o : Option ℕ) (pin : Option Pin) (chain : List ℕ) (w : World)
      → IsClosed w
      → Avoids obj chain
      → Leaves chain w (owned default classes is_true takes_attributes obj o pin w).1
  owned-Leaves obj none pin chain w c h = (c, (refl, refl))
  owned-Leaves obj (some p) none chain w c h = (c, (refl, refl))
  owned-Leaves obj (some p) (some pin) chain w c h = elim (Bool-cases (is_target obj pin.target)) [
    | inl on ↦ rw on (c, (refl, refl))
    | inr other ↦ rw other (
        fresh-Leaves (clone default no_arguments pin.info w).0 obj chain w
          (clone default no_arguments pin.info w).1 c (clone-Spares default no_arguments pin.info w)
          h)
  ]

  pub get_from-Leaves :
      (obj : ℕ) (chain : List ℕ) (w : World)
      → IsClosed w
      → Avoids obj chain
      → Leaves chain w (get_from default classes is_true takes_attributes obj w).1
  unfolding get_from
  get_from-Leaves obj chain w c h = owned-Leaves obj _ _ chain w c h

  removed-Leaves :
      (obj : ℕ) (o : Option ℕ) (chain : List ℕ) (w : World)
      → IsClosed w
      → Avoids obj chain
      → Leaves chain w (removed default classes is_true takes_attributes obj o w)
  removed-Leaves obj none chain w c h = (c, (refl, refl))
  removed-Leaves obj (some p) chain w c h = elim (Bool-cases (takes_attributes obj)) [
    | inl on ↦ rw on (
      detach-IsClosed obj w c,
      (first_own-erase obj chain w.own h, view_at-own (first_own chain w.own) (erase obj w.own) w),
    )
    | inr other ↦ rw other (c, (refl, refl))
  ]

  pub overridden-Spares :
      (a : Arguments) (o : Option Pin) (w : World)
      → let (i, w') = overridden default classes is_true takes_attributes a o w in
        Spares w w' × IsNew w w' i.config
  overridden-Spares a none w = fresh-Spares default a w
  overridden-Spares a (some pin) w = clone-Spares default a pin.info w

  pub override-Leaves :
      (a : Arguments) (obj : ℕ) (chain : List ℕ) (w : World)
      → IsClosed w
      → Avoids obj chain
      → Leaves chain w (override default classes is_true takes_attributes a obj w)
  unfolding override
  override-Leaves a obj chain w c h =
      let (p, w1) = get_from default classes is_true takes_attributes obj w in
      let o = pin_at default classes is_true takes_attributes p w1 in
      let (i, w2) = overridden default classes is_true takes_attributes a o w1 in
      elim (Bool-cases (is_true obj)) [
        | inl on ↦ rw on (
            Leaves-trans chain w w1
              (onto default classes is_true takes_attributes w2.next obj (allocate i w2))
              (get_from-Leaves obj chain w c h)
              (λ c1. fresh-Leaves i obj chain w1 w2 c1 (overridden-Spares a o w1) h))
        | inr off ↦ rw off (c, (refl, refl))
      ]

  pub remove_from-Leaves :
      (obj : ℕ) (chain : List ℕ) (w : World)
      → IsClosed w
      → Avoids obj chain
      → Leaves chain w (remove_from default classes is_true takes_attributes obj w)
  unfolding remove_from
  remove_from-Leaves obj chain w c h =
      let (p, w') = get_from default classes is_true takes_attributes obj w in
      Leaves-trans chain w w' (removed default classes is_true takes_attributes obj p w')
        (get_from-Leaves obj chain w c h) (λ c'. removed-Leaves obj p chain w' c' h)

-- ===== src/Pin/Steps.antt =====
-- ddtrace/pin.py: what the steps of an operation leave as it is.
use dd_trace_py.Base.{
  ℕ, ◌+◌, ◌<◌, ◌≡◌, refl, ◌∙◌, sym, ap, arith, Bool, true, false, Option, none, some, List, [], ◌∷◌,
  nat_eq, nat_beq, if◌then◌else◌, All, Every, Every-imp, Bool-cases, Option-cases, inl, inr,
}
use dd_trace_py.Base.Dict.{Dict, lookup, insert, erase, lookup-insert, lookup-erase}
use dd_trace_py.Base.Updates.{or_else}
use dd_trace_py.Pin.{Info, Pin, World, first_own, allocate, retarget, view_at}

-- The numbers of the pins that objects have, and of the dicts that pins hold, are given out.
pub record IsClosed (w : World) : Type 0 where
  pub owned : (obj : ℕ) → Every (λ p. p < w.next) (lookup obj w.own)
  pub held : (p : ℕ) → Every (λ pin. pin.info.config < w.next_config) (lookup p w.pins)

-- The object is neither one of these.
abbrev pub Avoids : ℕ → List ℕ → Type 0
Avoids obj = All (λ j. nat_beq obj j ≡ false)

-- The same pins for a chain of classes, and the same attributes of them
abbrev pub SameFor : List ℕ → World → World → Type 0
SameFor chain w w' =
    (first_own chain w'.own ≡ first_own chain w.own)
    × (view_at (first_own chain w.own) w' ≡ view_at (first_own chain w.own) w)

elim-or {ℓ κ} :
    {A : Type ℓ} (P : A → Type κ) (o o' : Option A)
    → Every P o
    → Every P o'
    → Every P (or_else o o')
elim-or P none o' h h' = h'
elim-or P (some x) o' h h' = h

first_own-closed :
    (w : World) (chain : List ℕ) → IsClosed w → Every (λ p. p < w.next) (first_own chain w.own)
first_own-closed w [] h = record {}
first_own-closed w (obj ∷ chain) h =
    elim-or (λ p. p < w.next) (lookup obj w.own) (first_own chain w.own) (h.owned obj)
      (first_own-closed w chain h)

first_own-insert :
    (obj p : ℕ) (chain : List ℕ) (own : Dict ℕ ℕ)
    → Avoids obj chain
    → first_own chain (insert obj p own) ≡ first_own chain own
first_own-insert obj p [] own h = refl
first_own-insert obj p (j ∷ chain) own h =
    rw (lookup-insert obj j p own, h.0, first_own-insert obj p chain own h.1) refl

pub first_own-erase :
    (obj : ℕ) (chain : List ℕ) (own : Dict ℕ ℕ)
    → Avoids obj chain
    → first_own chain (erase obj own) ≡ first_own chain own
first_own-erase obj [] own h = refl
first_own-erase obj (j ∷ chain) own h =
    rw (lookup-erase obj j own, h.0, first_own-erase obj chain own h.1) refl

view_at-allocate :
    (i : Info) (w : World) (o : Option ℕ)
    → Every (λ p. p < w.next) o
    → view_at o (allocate i w) ≡ view_at o w
unfolding allocate
view_at-allocate i w none h = refl
view_at-allocate i w (some p) h =
    ground (arith, h, lookup-insert w.next p (record { info = i; target = none }) w.pins)

view_at-retarget :
    (p obj : ℕ) (o : Option ℕ) (w : World)
    → view_at o (retarget p obj (lookup p w.pins) w) ≡ view_at o w
view_at-retarget p obj none w = refl
view_at-retarget p obj (some q) w = elim (Option-cases (lookup p w.pins)) [
  | inl missing ↦ rw missing refl
  | inr (pin, there) ↦ rw there (elim (Bool-cases (nat_beq p q)) [
    | inl same ↦
        ground (arith, same, there, lookup-insert p q (record pin { target = some obj }) w.pins)
    | inr other ↦ ground (arith, other, lookup-insert p q (record pin { target = some obj }) w.pins)
  ])
]

pub retarget-own : (p obj : ℕ) (o : Option Pin) (w : World) → (retarget p obj o w).own ≡ w.own
retarget-own p obj none w = refl
retarget-own p obj (some pin) w = refl

pub retarget-next : (p obj : ℕ) (o : Option Pin) (w : World) → (retarget p obj o w).next ≡ w.next
retarget-next p obj none w = refl
retarget-next p obj (some pin) w = refl

pub SameFor-trans :
    (chain : List ℕ) (u v w : World) → SameFor chain u v → SameFor chain v w → SameFor chain u w
SameFor-trans chain u v w (o, i) (o', i') =
    (o' ∙ o, ap (λ p. view_at p w) (sym o) ∙ i' ∙ ap (λ p. view_at p v) o ∙ i)

pub retarget-SameFor :
    (p obj : ℕ) (chain : List ℕ) (w : World) → SameFor chain w (retarget p obj (lookup p w.pins) w)
retarget-SameFor p obj chain w = (
  ap (first_own chain) (retarget-own p obj (lookup p w.pins) w),
  view_at-retarget p obj (first_own chain w.own) w,
)

-- Which object has which pin does not show in a pin.
pub view_at-own :
    (o : Option ℕ) (own : Dict ℕ ℕ) (w : World) → view_at o (record w { own = own }) ≡ view_at o w
view_at-own none own w = refl
view_at-own (some p) own w = refl

pub config-given :
    (p : ℕ) (pin : Pin) (w : World)
    → IsClosed w
    → lookup p w.pins ≡ some pin
    → pin.info.config < w.next_config
config-given p pin w h there = let held = h.held p in rw there at held

pub attach-SameFor :
    (b : Bool) (p obj : ℕ) (chain : List ℕ) (w : World)
    → Avoids obj chain
    → SameFor chain w (if b then record w { own = insert obj p w.own } else w)
attach-SameFor false p obj chain w h = (refl, refl)
attach-SameFor true p obj chain w h = (
  first_own-insert obj p chain w.own h,
  view_at-own (first_own chain w.own) (insert obj p w.own) w,
)

pub attach-IsClosed :
    (b : Bool) (p obj : ℕ) (w : World)
    → IsClosed w
    → p < w.next
    → IsClosed (if b then record w { own = insert obj p w.own } else w)
attach-IsClosed false p obj w h lt = h
attach-IsClosed true p obj w h lt = record {
  owned = λ j. elim (Bool-cases (nat_beq obj j)) [
    | inl same ↦ rw (lookup-insert obj j p w.own, same) lt
    | inr other ↦ rw (lookup-insert obj j p w.own, other) (h.owned j)
  ];
  held = h.held;
}

pub detach-IsClosed :
    (obj : ℕ) (w : World) → IsClosed w → IsClosed (record w { own = erase obj w.own })
detach-IsClosed obj w h = record {
  owned = λ j. elim (Bool-cases (nat_beq obj j)) [
    | inl same ↦ rw (lookup-erase obj j w.own, same) (record {})
    | inr other ↦ rw (lookup-erase obj j w.own, other) (h.owned j)
  ];
  held = h.held;
}

pub allocate-SameFor :
    (i : Info) (chain : List ℕ) (w : World) → IsClosed w → SameFor chain w (allocate i w)
unfolding allocate
allocate-SameFor i chain w h =
    (refl, view_at-allocate i w (first_own chain w.own) (first_own-closed w chain h))

pub allocate-IsClosed :
    (i : Info) (w : World) → IsClosed w → i.config < w.next_config → IsClosed (allocate i w)
unfolding allocate
allocate-IsClosed i w h lt = record {
  owned = λ j.
      Every-imp (λ p. p < w.next) (λ p. p < w.next + 1) (λ p le. omega (arith, le)) (lookup j w.own)
        (h.owned j);
  held = λ p. elim (Bool-cases (nat_beq w.next p)) [
    | inl same ↦ rw (lookup-insert w.next p (record { info = i; target = none }) w.pins, same) lt
    | inr other ↦
        rw (lookup-insert w.next p (record { info = i; target = none }) w.pins, other) (h.held p)
  ];
}

pub retarget-IsClosed :
    (p obj : ℕ) (w : World) → IsClosed w → IsClosed (retarget p obj (lookup p w.pins) w)
retarget-IsClosed p obj w h = elim (Option-cases (lookup p w.pins)) [
  | inl missing ↦ rw missing h
  | inr (pin, there) ↦ rw there (record {
    owned = h.owned;
    held = λ q. elim (Bool-cases (nat_beq p q)) [
      | inl same ↦
          rw (lookup-insert p q (record pin { target = some obj }) w.pins, same)
            (config-given p pin w h there)
      | inr other ↦
          rw (lookup-insert p q (record pin { target = some obj }) w.pins, other) (h.held q)
    ];
  })
]

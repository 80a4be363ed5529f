-- ===== src/Base/Updates.antt =====
-- `update` of dicts, dict literals and dict comprehensions, by what is looked up afterwards.
use dd_trace_py.Base.{
  ◌≡◌, refl, ◌∙◌, ap, arith, Bool, Option, none, some, [], ◌∷◌, Eq, ◌==◌, if◌then◌else◌, Bool-cases,
  inl, inr,
}
use dd_trace_py.Base.Dict.{Dict, lookup, insert, erase, update, lookup-insert, lookup-erase}

abbrev pub or_else {ℓ} : {A : Type ℓ} → Option A → Option A → Option A
or_else none o = o
or_else (some x) o = some x

abbrev pub only_if {ℓ} : {A : Type ℓ} → (A → Bool) → Option A → Option A
only_if p none = none
only_if p (some v) = if p v then some v else none

module _ {ℓ κ} {K : Type ℓ} ⦃e : Eq K⦄ {V : Type κ} where
  -- Each key at most once.
  abbrev pub IsUnique : Dict K V → Type (ℓ ⊔ κ)
  IsUnique [] = Unit
  IsUnique ((k, v) ∷ d) = (lookup k d ≡ none) × IsUnique d

  -- `{k: v for k, v in d.items() if p(k, v)}`
  unfoldable pub keep_items : (K → V → Bool) → Dict K V → Dict K V
  keep_items p [] = []
  keep_items p ((k, v) ∷ d) = let rest = keep_items p d in if p k v then (k, v) ∷ rest else rest

  -- `{k: v, ...}`
  abbrev pub literal : Dict K V → Dict K V
  literal d = update [] d

  pub lookup-keep_items :
      (p : K → V → Bool) (k : K) (d : Dict K V)
      → IsUnique d
      → lookup k (keep_items p d) ≡ only_if (p k) (lookup k d)
  unfolding lookup keep_items
  lookup-keep_items p k [] u = refl
  lookup-keep_items p k ((j, v) ∷ d) u = elim (Bool-cases (j == k)) [
    | inl same ↦
        let at_j = (e.beq_iff j k).0 same in
        let rest = lookup-keep_items p k d u.1 in rw same (grind (arith, at_j, same, rest, u.0))
    | inr other ↦ ground (arith, other, lookup-keep_items p k d u.1)
  ]

  pub lookup-update :
      (k : K) (m d : Dict K V)
      → IsUnique m
      → lookup k (update d m) ≡ or_else (lookup k m) (lookup k d)
  unfolding lookup update
  lookup-update k [] d u = refl
  lookup-update k ((j, v) ∷ m) d u = elim (Bool-cases (j == k)) [
    | inl same ↦
        let at_j = (e.beq_iff j k).0 same in
        grind (arith, at_j, same, lookup-update k m (insert j v d) u.1, lookup-insert j k v d, u.0)
    | inr other ↦ ground (arith, other, lookup-update k m (insert j v d) u.1, lookup-insert j k v d)
  ]

  pub insert-IsUnique : (k : K) (v : V) (d : Dict K V) → IsUnique d → IsUnique (insert k v d)
  unfolding insert lookup
  insert-IsUnique k v [] u = (refl, u)
  insert-IsUnique k v ((j, w) ∷ d) u = elim (Bool-cases (j == k)) [
    | inl same ↦ rw same u
    | inr other ↦ rw other (
      ground (arith, e.beq_iff j k, e.beq_iff k j, other, lookup-insert k j v d, u.0),
      insert-IsUnique k v d u.1,
    )
  ]

  pub update-IsUnique : (m d : Dict K V) → IsUnique d → IsUnique (update d m)
  unfolding update
  update-IsUnique [] d u = u
  update-IsUnique ((k, v) ∷ m) d u = update-IsUnique m (insert k v d) (insert-IsUnique k v d u)

  pub erase-IsUnique : (k : K) (d : Dict K V) → IsUnique d → IsUnique (erase k d)
  unfolding erase lookup
  erase-IsUnique k [] u = u
  erase-IsUnique k ((j, w) ∷ d) u = elim (Bool-cases (j == k)) [
    | inl same ↦ rw same (erase-IsUnique k d u.1)
    | inr other ↦ rw other (
      ground (arith, e.beq_iff j k, e.beq_iff k j, other, lookup-erase k j d, u.0),
      erase-IsUnique k d u.1,
    )
  ]

  pub keep_items-IsUnique :
      (p : K → V → Bool) (d : Dict K V) → IsUnique d → IsUnique (keep_items p d)
  unfolding keep_items
  keep_items-IsUnique p [] u = u
  keep_items-IsUnique p ((j, w) ∷ d) u = elim (Bool-cases (p j w)) [
    | inl keep ↦
        rw keep (lookup-keep_items p j d u.1 ∙ ap (only_if (p j)) u.0, keep_items-IsUnique p d u.1)
    | inr drop ↦ rw drop (keep_items-IsUnique p d u.1)
  ]

-- ===== src/Flatten.antt =====
-- ddtrace/contrib/trace_utils.py: `_flatten`, which takes nested dicts apart with a stack, and
-- `set_flattened_tags`. A value that is no dict is of any type.
pub mod Leaves
use dd_trace_py.Base.{
  ℕ, zero, suc, ◌+◌, Bool, true, false, Option, none, some, List, [], ◌∷◌, ◌++◌, map, if◌then◌else◌,
}
use mathlib.Core.Option
use dd_trace_py.Base.Text.{Text}

-- A value, or a dict of values, in its order
mutual
  pub data Tree {ℓ} (V : Type ℓ) : Type ℓ where
    leaf : V → Tree V
    node : Fields V → Tree V

  pub data Fields {ℓ} (V : Type ℓ) : Type ℓ where
    end : Fields V
    field : Text → Tree V → Fields V → Fields V

-- `sep.join((p, k)) if p else k`
abbrev pub join_key : Text → Text → Text → Text
join_key sep [] key = key
join_key sep (c ∷ p) key = (c ∷ p) ++ (sep ++ key)

-- One turn of the loop for each leaf and each dict
unfoldable mutual
  pub weight {ℓ} : {V : Type ℓ} → Tree V → ℕ
  weight (leaf v) = 1
  weight (node fields) = suc (weight_fields fields)

  pub weight_fields {ℓ} : {V : Type ℓ} → Fields V → ℕ
  weight_fields end = 0
  weight_fields (field key v fields) = weight v + weight_fields fields

module _ {ℓ} {V : Type ℓ} (sep : Text) (is_excluded : Text → Bool) where
  -- `s.extend(...)`: the last field comes to the top, which is the head of the list
  unfoldable pub extend : Text → Fields V → List (Text × Tree V) → List (Text × Tree V)
  extend p end stack = stack
  extend p (field key v fields) stack = extend p fields ((join_key sep p key, v) ∷ stack)

  -- The loop, as long as there is fuel
  unfoldable pub run_stack : ℕ → List (Text × Tree V) → Option (List (Text × V))
  run_stack n [] = some []
  run_stack zero (e ∷ stack) = none
  run_stack (suc n) ((p, leaf v) ∷ stack) =
      let rest = run_stack n stack in if is_excluded p then rest else Option.map ((p, v) ∷◌) rest
  run_stack (suc n) ((p, node fields) ∷ stack) = elim (is_excluded p) [
    | true ↦ run_stack n stack
    | false ↦ run_stack n (extend p fields stack)
  ]

  -- `_flatten(obj, sep, prefix, exclude_policy)`
  unfoldable pub flatten : Text → Tree V → Option (List (Text × V))
  flatten prefix obj = run_stack (weight obj) ((prefix, obj) ∷ [])

  -- `set_flattened_tags`: the calls of `set_tag`, with what the processor makes of each value
  unfoldable pub set_flattened_tags {κ} :
      {W : Type κ} → (V → W) → List (Text × Tree V) → Option (List (Text × W))
  unfolding flatten
  set_flattened_tags processor [] = some []
  set_flattened_tags processor ((prefix, value) ∷ items) =
      let rest = set_flattened_tags processor items in
      elim (flatten prefix value) [
        | none ↦ none
        | some leaves ↦ Option.map (λ tags. map (λ e. (e.0, processor e.1)) leaves ++ tags) rest
      ]

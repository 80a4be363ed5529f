-- ===== src/Flatten/Leaves.antt =====
-- ddtrace/contrib/trace_utils.py: the stack of `_flatten` gives the leaves, each with its path.
use dd_trace_py.Base.{
  ℕ, zero, suc, ◌+◌, ◌≤◌, ◌≡◌, refl, ◌∙◌, sym, ap, arith, Bool, some, List, [], ◌∷◌, ◌++◌,
  if◌then◌else◌, append_assoc, append-nil, Bool-cases, inl, inr,
}
use dd_trace_py.Base.Text.{Text}
use dd_trace_py.Flatten.{
  Tree, Fields, leaf, node, end, field, join_key, extend, run_stack, weight, weight_fields, flatten,
}

module _ {ℓ} {V : Type ℓ} (sep : Text) (is_excluded : Text → Bool) where
  -- The leaves below a path, by recursion on the tree: of each dict the last key first, and nothing
  -- at or below a path that is excluded
  unfoldable mutual
    pub leaves : Text → Tree V → List (Text × V)
    leaves p (leaf v) = if is_excluded p then [] else (p, v) ∷ []
    leaves p (node fields) = if is_excluded p then [] else leaves_fields p fields

    pub leaves_fields : Text → Fields V → List (Text × V)
    leaves_fields p end = []
    leaves_fields p (field key v fields) = leaves_fields p fields ++ leaves (join_key sep p key) v

  abbrev leaves_stack : List (Text × Tree V) → List (Text × V)
  leaves_stack [] = []
  leaves_stack ((p, t) ∷ stack) = leaves p t ++ leaves_stack stack

  abbrev weight_stack : List (Text × Tree V) → ℕ
  weight_stack [] = 0
  weight_stack ((p, t) ∷ stack) = weight t + weight_stack stack

  extend-leaves :
      (p : Text) (fields : Fields V) (stack : List (Text × Tree V))
      → leaves_stack (extend sep is_excluded p fields stack)
        ≡ leaves_fields p fields ++ leaves_stack stack
  unfolding extend leaves
  extend-leaves p end stack = refl
  extend-leaves p (field key v fields) stack =
      extend-leaves p fields ((join_key sep p key, v) ∷ stack)
      ∙ sym (
          append_assoc (leaves_fields p fields) (leaves (join_key sep p key) v)
            (leaves_stack stack))

  extend-weight :
      (p : Text) (fields : Fields V) (stack : List (Text × Tree V))
      → weight_stack (extend sep is_excluded p fields stack)
        ≡ weight_fields fields + weight_stack stack
  unfolding extend weight
  extend-weight p end stack = omega arith
  extend-weight p (field key v fields) stack =
      omega (arith, extend-weight p fields ((join_key sep p key, v) ∷ stack))

  run_stack-leaves :
      (n : ℕ) (stack : List (Text × Tree V))
      → weight_stack stack ≤ n
      → run_stack sep is_excluded n stack ≡ some (leaves_stack stack)
  unfolding run_stack weight leaves
  run_stack-leaves n [] le = refl
  run_stack-leaves zero ((p, leaf v) ∷ stack) le = absurd (omega (arith, le))
  run_stack-leaves zero ((p, node fields) ∷ stack) le = absurd (omega (arith, le))
  run_stack-leaves (suc n) ((p, leaf v) ∷ stack) le =
      let rest = run_stack-leaves n stack (omega (arith, le)) in
      elim (Bool-cases (is_excluded p)) [
        | inl on ↦ rw (on, rest) refl
        | inr off ↦ rw (off, rest) refl
      ]
  run_stack-leaves (suc n) ((p, node fields) ∷ stack) le = elim (Bool-cases (is_excluded p)) [
    | inl on ↦ rw (run_stack, on) (run_stack-leaves n stack (omega (arith, le)))
    | inr off ↦
        rw (run_stack, off)
          (run_stack-leaves n (extend sep is_excluded p fields stack)
              (omega (arith, le, extend-weight p fields stack))
            ∙ ap some (extend-leaves p fields stack))
  ]

  -- `_flatten` ends, after as many turns as the object has leaves and dicts, and yields each leaf
  -- once with the keys on the way to it, the last key of each dict first, less what stands at or
  -- below an excluded path.
  pub flatten-leaves :
      (prefix : Text) (obj : Tree V) → flatten sep is_excluded prefix obj ≡ some (leaves prefix obj)
  unfolding flatten
  flatten-leaves prefix obj =
      run_stack-leaves (weight obj) ((prefix, obj) ∷ []) (omega arith)
      ∙ ap some (append-nil (leaves prefix obj))

-- ===== src/Propagation/Headers.antt =====
-- What the normalised headers hold.
use dd_trace_py.Base.{
  ◌≡◌, refl, false, Option, none, some, [], ◌∷◌, arith, codes_eq, codes_beq_iff, ◌==◌,
  if◌then◌else◌, All, inl, inr, Bool-cases,
}
use dd_trace_py.Base.Text.{Text, lower}
use dd_trace_py.Base.Dict.{Dict, lookup, insert, lookup-insert}
use dd_trace_py.Propagation.{normalize, insert_given}

abbrev pub first_some : Option Text → Option Text → Option Text
first_some none q = q
first_some (some v) q = some v

-- The value of the last header whose name in lower case is `name`.
unfoldable pub found : Text → Dict Text Text → Option Text
found name [] = none
found name ((k, v) ∷ headers) =
    first_some (found name headers) (if lower k == name then some v else none)

-- Looking a name up in the normalised headers finds that value.
pub lookup-normalize :
    (name : Text) (so_far headers : Dict Text Text)
    → lookup name (normalize so_far headers) ≡ first_some (found name headers) (lookup name so_far)
unfolding normalize found
lookup-normalize name so_far [] = refl
lookup-normalize name so_far ((k, v) ∷ headers) = ground (
  arith,
  lookup-normalize name (insert (lower k) v so_far) headers,
  lookup-insert (lower k) name v so_far,
)

-- No header reads as `name` in lower case.
abbrev pub Absent : Text → Dict Text Text → Type 0
Absent name = All (λ e. (lower e.0 == name) ≡ false)

pub Absent-insert :
    (name k v : Text) (headers : Dict Text Text)
    → (lower k == name) ≡ false
    → Absent name headers
    → Absent name (insert k v headers)
unfolding insert
Absent-insert name k v [] h s = (h, tt)
Absent-insert name k v ((j, w) ∷ headers) h s = elim (Bool-cases (j == k)) [
  | inl e ↦ rw (e, insert) (s.0, s.1)
  | inr e ↦ rw (e, insert) (s.0, Absent-insert name k v headers h s.1)
]

pub Absent-insert_given :
    (name k : Text) (v : Option Text) (headers : Dict Text Text)
    → (lower k == name) ≡ false
    → Absent name headers
    → Absent name (insert_given k v headers)
unfolding insert_given
Absent-insert_given name k none headers h s = s
Absent-insert_given name k (some v) headers h s = Absent-insert name k v headers h s

pub found-Absent :
    (name : Text) (headers : Dict Text Text) → Absent name headers → found name headers ≡ none
unfolding found
found-Absent name [] s = refl
found-Absent name (e ∷ headers) s = rw (found-Absent name headers s.1, s.0)

-- A write at a name in lower case that no header has.
pub found-insert :
    (name k v : Text) (headers : Dict Text Text)
    → lower k ≡ k
    → Absent k headers
    → found name (insert k v headers) ≡ (if k == name then some v else found name headers)
unfolding found insert
found-insert name k v [] h s = rw h
found-insert name k v ((j, w) ∷ headers) h s = ground (
  arith,
  found-insert name k v headers h s.1,
  s.0,
  h,
  codes_beq_iff j k,
  codes_beq_iff (lower j) k,
  codes_beq_iff (lower j) name,
  codes_beq_iff k name,
)

pub found-insert_given :
    (name k : Text) (v : Option Text) (headers : Dict Text Text)
    → lower k ≡ k
    → Absent k headers
    → found name (insert_given k v headers)
      ≡ first_some (if k == name then v else none) (found name headers)
unfolding insert_given
found-insert_given name k none headers h s = ground arith
found-insert_given name k (some v) headers h s = ground (arith, found-insert name k v headers h s)

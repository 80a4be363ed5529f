-- ===== src/Formats.antt =====
-- ddtrace/utils/formats.py: settings that are read from texts. The environment is a parameter; the
-- log and the warning of a legacy name are not modelled. `deep_getattr` is left out.
pub mod RoundTrip
use dd_trace_py.Base.{
  ℕ, zero, suc, ◌+◌, Bool, true, false, ◌&&◌, ◌||◌, not, Option, none, some, List, [], ◌∷◌, ◌++◌,
  codes_eq, ◌==◌, nat_beq, if◌then◌else◌,
}
use dd_trace_py.Base.Dict.{Dict, lookup, insert}
use dd_trace_py.Base.Text.{Text, codes, lower, upper}
use dd_trace_py.Base.Strings.{split, join, is_space}
use dd_trace_py.Ci.Refs.{is_truthy, or_text}

-- `get_env(*parts, default=...)`: the DD_ name, then the DATADOG_ name, then the default
unfoldable pub get_env : Dict Text Text → List Text → Option Text → Option Text
unfolding join upper
get_env env parts default =
    let key = upper (join (codes "_") parts) in
    let value = lookup (codes "DD_" ++ key) env in
    let legacy = lookup (codes "DATADOG_" ++ key) env in or_text (or_text value legacy) default

-- What `asbool` takes
pub data Setting : Type 0 where
  missing : Setting
  flag : Bool → Setting
  text : Text → Setting

unfoldable pub asbool : Setting → Bool
unfolding lower
asbool missing = false
asbool (flag b) = b
asbool (text t) = (lower t == codes "true") || (lower t == codes "1")

-- `[^,\s]+:`, which follows a colon (58); `more` says that a character is taken already
abbrev pub reaches_colon : Bool → Text → Bool
reaches_colon more [] = false
reaches_colon more (c ∷ t) =
    let rest = reaches_colon true t in
    if more && nat_beq c 58 then true else if nat_beq c 44 || is_space c then false else rest

-- `_TAGS_NOT_SEPARATED.search`
abbrev pub are_not_separated : Text → Bool
are_not_separated [] = false
are_not_separated (c ∷ t) = (nat_beq c 58 && reaches_colon false t) || are_not_separated t

abbrev pub count_colons : Text → ℕ
count_colons [] = 0
count_colons (c ∷ t) = (if nat_beq c 58 then 1 else 0) + count_colons t

abbrev pub has_colon : Text → Bool
has_colon [] = false
has_colon (c ∷ t) = nat_beq c 58 || has_colon t

-- `sum(":" in part for part in parts)`
abbrev pub count_tags : List Text → ℕ
count_tags [] = 0
count_tags (part ∷ parts) = (if has_colon part then 1 else 0) + count_tags parts

-- The first of comma and space that leaves each colon in a part of its own
abbrev pub separator : Text → Option ℕ
separator t =
    if nat_beq (count_tags (split 44 t)) (count_colons t)
    then some 44
    else if nat_beq (count_tags (split 32 t)) (count_colons t)
    then some 32
    else none

-- `tag.split(":", 1)` into two
abbrev pub cut_at_colon : Text → Option (Text × Text)
cut_at_colon [] = none
cut_at_colon (c ∷ t) = elim (nat_beq c 58) [
  | true ↦ some ([], t)
  | false ↦ elim (cut_at_colon t) [ none ↦ none | some (key, value) ↦ some (c ∷ key, value) ]
]

abbrev pub ends_with_colon : Text → Bool
ends_with_colon [] = false
ends_with_colon (c ∷ []) = nat_beq c 58
ends_with_colon (c ∷ d ∷ t) = ends_with_colon (d ∷ t)

-- `none` is the ValueError
abbrev pub valid_pair : Text × Text → Option (Text × Text)
valid_pair ([], value) = none
valid_pair (c ∷ key, []) = none
valid_pair (c ∷ key, d ∷ value) =
    if ends_with_colon (d ∷ value) then none else some (c ∷ key, d ∷ value)

abbrev pub pair_of : Text → Option (Text × Text)
pair_of tag = elim (cut_at_colon tag) [ none ↦ none | some p ↦ valid_pair p ]

abbrev pub insert_pair : Option (Text × Text) → Dict Text Text → Dict Text Text
insert_pair none d = d
insert_pair (some (key, value)) d = insert key value d

-- The loop over the parts: one that is malformed is passed over
unfoldable pub insert_tags : List Text → Dict Text Text → Dict Text Text
insert_tags [] d = d
insert_tags (tag ∷ tags) d = insert_tags tags (insert_pair (pair_of tag) d)

unfoldable pub parse_tags_str : Option Text → Dict Text Text
unfolding split
parse_tags_str none = []
parse_tags_str (some []) = []
parse_tags_str (some (c ∷ t)) = elim (are_not_separated (c ∷ t)) [
  | true ↦ []
  | false ↦ elim (separator (c ∷ t)) [ none ↦ [] | some sep ↦ insert_tags (split sep (c ∷ t)) [] ]
]

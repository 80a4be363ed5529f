-- ===== src/Base/Strings.antt =====
-- Methods of `str` on texts, and the parts of regular expressions that the program uses.
use dd_trace_py.Base.{
  ℕ, zero, suc, ◌-◌, Bool, true, false, ◌&&◌, ◌||◌, Option, none, some, List, [], ◌∷◌, ◌++◌, ◌==◌,
  nat_eq, if◌then◌else◌, length, any,
}
use dd_trace_py.Base.Text.{Text}

-- `t.startswith(prefix)`, and what follows the prefix
abbrev pub after_prefix : Text → Text → Option Text
after_prefix [] t = some t
after_prefix (c ∷ prefix) [] = none
after_prefix (c ∷ prefix) (d ∷ t) =
    let rest = after_prefix prefix t in if c == d then rest else none

abbrev pub starts_with : Text → Text → Bool
starts_with [] t = true
starts_with (c ∷ prefix) [] = false
starts_with (c ∷ prefix) (d ∷ t) = (c == d) && starts_with prefix t

-- `part in t`
abbrev pub contains_text : Text → Text → Bool
contains_text part [] = starts_with part []
contains_text part (c ∷ t) = starts_with part (c ∷ t) || contains_text part t

-- `t.replace(part, new)` for a part that is not empty, with the number of characters to pass over
unfoldable pub replace_from : Text → Text → ℕ → Text → Text
replace_from part new k [] = []
replace_from part new (suc k) (c ∷ t) = replace_from part new k t
replace_from part new zero (c ∷ t) = elim (starts_with part (c ∷ t)) [
  | true ↦ new ++ replace_from part new (length part - 1) t
  | false ↦ c ∷ replace_from part new 0 t
]

abbrev pub replace : Text → Text → Text → Text
replace part new t = replace_from part new 0 t

abbrev pub before_first : ℕ → List Text → List Text
before_first c [] = (c ∷ []) ∷ []
before_first c (w ∷ ws) = (c ∷ w) ∷ ws

-- `t.split(sep)` for one character
unfoldable pub split : ℕ → Text → List Text
split sep [] = [] ∷ []
split sep (c ∷ t) = let rest = split sep t in if c == sep then [] ∷ rest else before_first c rest

-- `t.split(sep)` for two characters, the second of which is not the first
unfoldable pub split_two : ℕ → ℕ → Text → List Text
split_two c d [] = [] ∷ []
split_two c d (a ∷ []) = (a ∷ []) ∷ []
split_two c d (a ∷ b ∷ t) = elim ((a == c) && (b == d)) [
  | true ↦ [] ∷ split_two c d t
  | false ↦ before_first a (split_two c d (b ∷ t))
]

-- `sep.join(words)`
unfoldable pub join : Text → List Text → Text
join sep [] = []
join sep (w ∷ []) = w
join sep (w ∷ v ∷ ws) = w ++ (sep ++ join sep (v ∷ ws))

abbrev pub drop_while : (ℕ → Bool) → Text → Text
drop_while p [] = []
drop_while p (c ∷ t) = let rest = drop_while p t in if p c then rest else c ∷ t

abbrev pub drop_end : (ℕ → Bool) → Text → Text
drop_end p [] = []
drop_end p (c ∷ t) = elim (drop_end p t) [ [] ↦ if p c then [] else c ∷ [] | d ∷ r ↦ c ∷ d ∷ r ]

-- `t.strip(chars)`
abbrev pub strip : (ℕ → Bool) → Text → Text
strip p t = drop_end p (drop_while p t)

-- `str.isspace` of one character, and `\s`
unfoldable pub is_space : ℕ → Bool
is_space c =
    any (λ d. c == d)
      (9 ∷ 10 ∷ 11 ∷ 12 ∷ 13 ∷ 28 ∷ 29 ∷ 30 ∷ 31 ∷ 32 ∷ 133 ∷ 160 ∷ 5760 ∷ 8192 ∷ 8193 ∷ 8194 ∷ 8195
        ∷ 8196 ∷ 8197 ∷ 8198 ∷ 8199 ∷ 8200 ∷ 8201 ∷ 8202 ∷ 8232 ∷ 8233 ∷ 8239 ∷ 8287 ∷ 12288 ∷ [])

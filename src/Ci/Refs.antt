-- ===== src/Ci/Refs.antt =====
-- ddtrace/ext/ci.py: the names of branches and tags, and the credentials in a URL.
use dd_trace_py.Base.{
  ℕ, zero, suc, ◌+◌, ◌-◌, Bool, true, false, Option, none, some, [], ◌∷◌, ◌++◌, nat_beq,
  if◌then◌else◌,
}
use dd_trace_py.Base.Text.{Text, codes}
use dd_trace_py.Base.Strings.{after_prefix}

-- Python's truth of a text that can be None, `a or b`, and what `format` makes of it
abbrev pub is_truthy : Option Text → Bool
is_truthy none = false
is_truthy (some []) = false
is_truthy (some (c ∷ t)) = true

abbrev pub or_text : Option Text → Option Text → Option Text
or_text a b = if is_truthy a then a else b

abbrev pub shown : Option Text → Text
shown none = codes "None"
shown (some t) = t

abbrev pub without : Text → Text → Text
without prefix t = elim (after_prefix prefix t) [ none ↦ t | some rest ↦ rest ]

-- `^refs/(heads/)?`
abbrev pub without_refs : Text → Text
without_refs t = elim (after_prefix (codes "refs/") t) [
  | none ↦ t
  | some rest ↦ without (codes "heads/") rest
]

unfoldable pub normalize_ref : Option Text → Option Text
normalize_ref none = none
normalize_ref (some name) =
    some (without (codes "tags/") (without (codes "origin/") (without_refs name)))

abbrev pub http : Text
http = codes "http://"

abbrev pub https : Text
https = codes "https://"

-- `[^/]*@`: how many characters it takes, up to the last `@` (64) before a slash (47); 0 is no match
abbrev pub through_at : Text → ℕ
through_at [] = 0
through_at (c ∷ t) =
    if nat_beq c 47
    then 0
    else elim (through_at t) [ suc n ↦ suc (suc n) | zero ↦ if nat_beq c 64 then 1 else 0 ]

abbrev pub match_after : Text → Option Text → Option (Text × ℕ)
match_after scheme none = none
match_after scheme (some rest) = elim (through_at rest) [
  | zero ↦ none
  | suc n ↦ some (scheme, suc n)
]

abbrev pub first_match : Option (Text × ℕ) → Option (Text × ℕ) → Option (Text × ℕ)
first_match none b = b
first_match (some a) b = some a

-- `(https?://)[^/]*@` at the start of the text: the scheme, and the length of the credentials
abbrev pub credentials : Text → Option (Text × ℕ)
credentials t =
    first_match (match_after https (after_prefix https t)) (match_after http (after_prefix http t))

abbrev pub length_text : Text → ℕ
length_text [] = 0
length_text (c ∷ t) = suc (length_text t)

-- `re.sub` goes through the text from the left; `k` characters of a match are to be passed over.
unfoldable pub filter_from : ℕ → Text → Text
filter_from k [] = []
filter_from (suc k) (c ∷ t) = filter_from k t
filter_from zero (c ∷ t) = elim (credentials (c ∷ t)) [
  | none ↦ c ∷ filter_from 0 t
  | some (scheme, n) ↦ scheme ++ filter_from (length_text scheme + n - 1) t
]

unfoldable pub filter_sensitive_info : Option Text → Option Text
filter_sensitive_info none = none
filter_sensitive_info (some url) = some (filter_from 0 url)

-- ===== src/Propagation.antt =====
-- ddtrace/propagation/http.py and utils.py: the headers that carry a context between services.
-- A text is a list of code points, and a header dict maps texts to texts. The names to look for
-- are frozensets of two: `wsgi_first` says for each which of the two Python iterates first.
-- `show_float` stands for `str` of a float.
pub mod Headers
pub mod RoundTrip
use mathlib.Core.Option
use dd_trace_py.Base.{
  ℕ, Bool, true, false, Option, none, some, List, [], ◌∷◌, ◌++◌, map, codes_eq, ◌==◌, nat_eq,
  if◌then◌else◌,
}
use dd_trace_py.Base.Int.{ℤ, pos, int_eq}
use dd_trace_py.Base.Text.{Text, codes, lower, upper}
use dd_trace_py.Base.Decimal.{show_int, read_int}
use dd_trace_py.Base.Dict.{Dict, lookup, insert}
use dd_trace_py.Context.{
  Context, Store, Number, int, float, sampling_priority, dd_origin, new_context,
}

abbrev pub trace_id_header : Text
trace_id_header = codes "x-datadog-trace-id"

abbrev pub parent_id_header : Text
parent_id_header = codes "x-datadog-parent-id"

abbrev pub sampling_priority_header : Text
sampling_priority_header = codes "x-datadog-sampling-priority"

abbrev pub origin_header : Text
origin_header = codes "x-datadog-origin"

abbrev dash_to_underscore : ℕ → ℕ
dash_to_underscore c = if c == 45 then 95 else c

-- `get_wsgi_header`
unfoldable pub get_wsgi_header : Text → Text
unfolding upper
get_wsgi_header header = codes "HTTP_" ++ map dash_to_underscore (upper header)

-- a frozenset `POSSIBLE_HTTP_HEADER_…`, as it is iterated
unfoldable pub possible_names : Bool → Text → List Text
possible_names true header = lower (get_wsgi_header header) ∷ header ∷ []
possible_names false header = header ∷ lower (get_wsgi_header header) ∷ []

-- `_extract_header_value` with `default=None`
unfoldable pub extract_header_value : List Text → Dict Text Text → Option Text
extract_header_value [] headers = none
extract_header_value (name ∷ names) headers = elim (lookup name headers) [
  | none ↦ extract_header_value names headers
  | some v ↦ some v
]

-- `{name.lower(): v for name, v in headers.items()}`: of two names that agree the later one wins
unfoldable pub normalize : Dict Text Text → Dict Text Text → Dict Text Text
normalize so_far [] = so_far
normalize so_far ((name, v) ∷ headers) = normalize (insert (lower name) v so_far) headers

unfoldable pub insert_given : Text → Option Text → Dict Text Text → Dict Text Text
insert_given name none headers = headers
insert_given name (some v) headers = insert name v headers

-- `str` of an optional id
abbrev pub show_id : Option ℤ → Text
show_id none = codes "None"
show_id (some i) = show_int i

-- `int(text)` of a header that may be missing
abbrev pub read_given : Option Text → Option (Option Number)
read_given none = some none
read_given (some text) = Option.map (λ i. some (int i)) (read_int text)

-- `int(text) or None`; the outer `none` is the ValueError
abbrev pub read_id : Text → Option (Option ℤ)
read_id text = Option.map (λ i. if i == pos 0 then none else some i) (read_int text)

module _ (show_float : ℤ → ℕ → Text) where
  abbrev pub show_number : Number → Text
  show_number (int i) = show_int i
  show_number (float n d) = show_float n d

  -- `HTTPPropagator.inject`
  unfoldable pub inject : Store → Context → Dict Text Text → Dict Text Text
  inject st c headers = insert_given origin_header (dd_origin st c) (
      insert_given sampling_priority_header (Option.map show_number (sampling_priority st c)) (
        insert parent_id_header (show_id c.span_id)
          (insert trace_id_header (show_id c.trace_id) headers)))

infixl 5 ◌>>=◌
abbrev ◌>>=◌ {ℓ κ} : {A : Type ℓ} {B : Type κ} → Option A → (A → Option B) → Option B
none >>= f = none
some a >>= f = f a

-- `Context()` with fresh dicts at the address `a`
abbrev pub no_context : ℕ → Store → Context × Store
no_context a st = new_context a none none none none st

-- the values of the four headers, parsed: `none` is a ValueError
unfoldable pub parse_headers :
    ℕ → Text → Text → Option Text → Option Text → Store → Option (Context × Store)
parse_headers a trace_id parent_id priority origin st = do
  p ← read_given priority
  t ← read_id trace_id
  s ← read_id parent_id
  some (new_context a t s origin p st)

abbrev pub or_default {ℓ} : {A : Type ℓ} → A → Option A → A
or_default d none = d
or_default d (some v) = v

-- `HTTPPropagator.extract` from the values of the four headers: trace id, parent id, priority,
-- origin
unfoldable pub context_from :
    ℕ → Store → Option Text → Option Text → Option Text → Option Text → Context × Store
context_from a st none parent_id priority origin = no_context a st
context_from a st (some trace_id) parent_id priority origin =
    or_default (no_context a st)
      (parse_headers a trace_id (or_default (codes "0") parent_id) priority origin st)

-- `HTTPPropagator.extract` of the normalised headers
unfoldable pub extract_normalized : (Text → Bool) → ℕ → Dict Text Text → Store → Context × Store
extract_normalized wsgi_first a headers st =
    let value =
      λ (name : Text). extract_header_value (possible_names (wsgi_first name) name) headers in
    context_from a st (value trace_id_header) (value parent_id_header)
      (value sampling_priority_header) (value origin_header)

-- `HTTPPropagator.extract`; the new context's dicts stand at the address `a`
unfoldable pub extract : (Text → Bool) → ℕ → Dict Text Text → Store → Context × Store
extract wsgi_first a [] st = no_context a st
extract wsgi_first a (e ∷ headers) st =
    extract_normalized wsgi_first a (normalize [] (e ∷ headers)) st

-- ===== src/Span/Tagging.antt =====
-- ddtrace/span.py: `set_tag`, which sends a value to the metrics, to the text tags, to the service
-- or to the sampling priority. A value is None, an int, a finite float or a text; other objects are
-- not modelled. `show_float` is `str` of a float, `read_float` is `float` of a text, `none` where it
-- raises or gives no finite number. A context that the span lacks gets its dicts at `a`.
pub mod Reads
use dd_trace_py.Base.{
  ℕ, ◌+◌, ◌-◌, ◌∷◌, [], ◌/◌, ◌^◌, ◌≡◌, ◌≢◌, ◌⊎◌, inl, inr, refl, arith, Bool, true, false, ◌&&◌,
  ◌||◌, not, Option, none, some, String, string_eq, ◌==◌, if◌then◌else◌, leb, Bool-cases, beq_refl,
  beq_ne,
}
use dd_trace_py.Base.Int.{ℤ, pos, negsuc}
use dd_trace_py.Base.Text.{Text, codes}
use dd_trace_py.Base.Decimal.{show_int, read_int}
use dd_trace_py.Base.Dict.{lookup, insert, erase, lookup-insert, lookup-erase}
use dd_trace_py.Context.{Store, Number, int, float, set_sampling_priority, sampling_priority}
use dd_trace_py.Span.{Span, set_metric, get_metric, get_tag, get_context, measured_key}

pub data Value : Type 0 where
  nothing : Value
  number : Number → Value
  text : Text → Value

abbrev pub status_code_key : String
status_code_key = "http.status_code"

abbrev pub target_port_key : String
target_port_key = "out.port"

abbrev pub analytics_key : String
analytics_key = "_dd1.sr.eausr"

abbrev pub manual_keep_key : String
manual_keep_key = "manual.keep"

abbrev pub manual_drop_key : String
manual_drop_key = "manual.drop"

abbrev pub service_name_key : String
service_name_key = "service.name"

abbrev pub service_version_key : String
service_version_key = "service.version"

abbrev pub version_key : String
version_key = "version"

-- `int` of a float, towards 0
abbrev truncate : ℤ → ℕ → ℤ
truncate (pos n) d = pos (n / d)
truncate (negsuc n) d = if leb ((n + 1) / d) 0 then pos 0 else negsuc ((n + 1) / d - 1)

-- `abs(value) <= 2 ** 53`
abbrev pub is_small : ℤ → Bool
is_small (pos n) = leb n (2 ^ 53)
is_small (negsuc n) = leb (n + 1) (2 ^ 53)

module _ (show_float : ℤ → ℕ → Text) (read_float : Text → Option Number) (a : ℕ) where
  -- `str(value)`, and `stringify(value)`
  abbrev pub str : Value → Text
  str nothing = codes "None"
  str (number (int i)) = show_int i
  str (number (float n d)) = show_float n d
  str (text t) = t

  -- `int(value)`
  abbrev to_int : Value → Option ℤ
  to_int nothing = none
  to_int (number (int i)) = some i
  to_int (number (float n d)) = some (truncate n d)
  to_int (text t) = read_int t

  abbrev or_same : Value → Option ℤ → Value
  or_same v none = v
  or_same v (some i) = number (int i)

  -- the conversions at the head of `set_tag`
  abbrev pub converted : String → Value → Value
  converted key v =
      let w = if key == status_code_key then text (str v) else v in
      if key == target_port_key then or_same w (to_int w) else w

  -- the end of `set_tag`: a text tag, and no metric of that key
  unfoldable pub set_text : String → Value → Span → Span
  set_text key v s = record s {
    tags = record { meta = insert key (str v) s.tags.meta; metrics = erase key s.tags.metrics };
  }

  -- `set_metric` of a value that is to be made a float
  abbrev pub set_numeric : String → Value → Span → Span
  set_numeric key nothing s = s
  set_numeric key (number n) s = set_metric key n s
  set_numeric key (text t) s = elim (read_float t) [ none ↦ s | some n ↦ set_metric key n s ]

  -- `set_metric` of the measured tag: its truth value counts
  abbrev measured : Value → Number
  measured nothing = int (pos 1)
  measured (number n) = n
  measured (text []) = int (pos 0)
  measured (text (c ∷ t)) = int (pos 1)

  abbrev service_of : Value → Option Text
  service_of nothing = none
  service_of (number n) = some (str (number n))
  service_of (text t) = some t

  abbrev pub with_user_priority : ℤ → Span → Store → Span × Store
  with_user_priority p s st =
      let (c, s', st') = get_context a s st in (s', set_sampling_priority c (some (int p)) st')

  -- the branches by key, for a value that is no float and no int of at most 53 bits; `again` is the
  -- call for the version tag
  unfoldable pub set_by_key : (Value → Span → Span) → String → Value → Span → Store → Span × Store
  set_by_key again key v s st =
      if key == analytics_key
      then (set_numeric key v s, st)
      else if key == manual_keep_key
      then with_user_priority (pos 2) s st
      else if key == manual_drop_key
      then with_user_priority (negsuc 0) s st
      else if key == service_name_key
      then (set_text key v (record s { service = service_of v }), st)
      else if key == service_version_key
      then (set_text key v (again v s), st)
      else if key == measured_key
      then (set_metric key (measured v) s, st)
      else (set_text key v s, st)

  -- `set_tag(VERSION_KEY, value)` of a value that is no float and no int of at most 53 bits comes to
  -- the end of `set_tag`
  abbrev pub set_converted : String → Value → Span → Store → Span × Store
  set_converted key (number (int i)) s st =
      if is_small i
      then (set_metric key (int i) s, st)
      else set_by_key (set_text version_key) key (number (int i)) s st
  set_converted key (number (float n d)) s st = (set_metric key (float n d) s, st)
  set_converted key nothing s st = set_by_key (set_text version_key) key nothing s st
  set_converted key (text t) s st = set_by_key (set_text version_key) key (text t) s st

  -- `set_tag(key, value)`
  unfoldable pub set_tag : String → Value → Span → Store → Span × Store
  set_tag key v s st = set_converted key (converted key v) s st

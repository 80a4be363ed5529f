-- ===== src/Propagation/RoundTrip.antt =====
-- A context that is injected into headers and extracted again.
use mathlib.Core.Option
use dd_trace_py.Base.{
  ℕ, ◌≡◌, ◌≢◌, refl, ◌∙◌, Bool, true, false, Option, none, some, [], ◌∷◌, arith, codes_eq, ◌==◌,
  if◌then◌else◌,
}
use dd_trace_py.Base.Int.{ℤ, pos, int_eq, int_beq_iff}
use dd_trace_py.Base.Text.{Text, lower}
use dd_trace_py.Base.Decimal.{show_int, read-show_int}
use dd_trace_py.Base.Dict.{Dict, lookup}
use dd_trace_py.Context.{
  Context, Store, Number, int, float, sampling_priority, dd_origin, new_context,
}
use dd_trace_py.Context.Sharing.{new_context_reads}
use dd_trace_py.Propagation.{
  trace_id_header, parent_id_header, sampling_priority_header, origin_header, get_wsgi_header,
  possible_names, extract_header_value, normalize, show_id, show_number, inject, read_given,
  read_id, no_context, parse_headers, context_from, extract_normalized, extract, or_default,
}
use dd_trace_py.Propagation.Headers.{
  found, first_some, lookup-normalize, Absent, Absent-insert, Absent-insert_given, found-Absent,
  found-insert, found-insert_given,
}

abbrev pub wsgi : Text → Text
wsgi name = lower (get_wsgi_header name)

-- No header has one of the propagation names, in any case.
pub record IsClean (headers : Dict Text Text) : Type 0 where
  pub trace_id : Absent trace_id_header headers
  pub parent_id : Absent parent_id_header headers
  pub priority : Absent sampling_priority_header headers
  pub origin : Absent origin_header headers
  pub wsgi_trace_id : Absent (wsgi trace_id_header) headers
  pub wsgi_parent_id : Absent (wsgi parent_id_header) headers
  pub wsgi_priority : Absent (wsgi sampling_priority_header) headers
  pub wsgi_origin : Absent (wsgi origin_header) headers

abbrev pub IsInt : Option Number → Type 0
IsInt none = Unit
IsInt (some (int _)) = Unit
IsInt (some (float _ _)) = ⊥

first_some-none : (q : Option Text) → first_some q none ≡ q
first_some-none none = refl
first_some-none (some v) = refl

module _ (show_float : ℤ → ℕ → Text) (st : Store) (c : Context) (headers : Dict Text Text) where
  abbrev injected : Dict Text Text
  injected = inject show_float st c headers

  -- what any name reads after the injection
  found-inject :
      (name : Text)
      → IsClean headers
      → found name injected
        ≡ first_some (if origin_header == name then dd_origin st c else none) (
            first_some
              (if sampling_priority_header == name
                then Option.map (show_number show_float) (sampling_priority st c)
                else none)
              (if parent_id_header == name
                then some (show_id c.span_id)
                else if trace_id_header == name
                then some (show_id c.trace_id)
                else found name headers))
  unfolding inject lower
  found-inject name clean =
      let a1 =
        Absent-insert parent_id_header trace_id_header (show_id c.trace_id) headers refl
          clean.parent_id in
      let a2 = Absent-insert sampling_priority_header parent_id_header (show_id c.span_id) _ refl (
        Absent-insert sampling_priority_header trace_id_header (show_id c.trace_id) headers refl
          clean.priority) in
      let a3 =
        Absent-insert_given origin_header sampling_priority_header
          (Option.map (show_number show_float) (sampling_priority st c)) _ refl
          (Absent-insert origin_header parent_id_header (show_id c.span_id) _ refl (
            Absent-insert origin_header trace_id_header (show_id c.trace_id) headers refl
              clean.origin)) in
      rw (
        found-insert_given name origin_header (dd_origin st c) _ refl a3,
        found-insert_given name sampling_priority_header _ _ refl a2,
        found-insert name parent_id_header (show_id c.span_id) _ refl a1,
        found-insert name trace_id_header (show_id c.trace_id) headers refl clean.trace_id,
      )

header_value :
    (wsgi_first : Bool) (name : Text) (headers : Dict Text Text) (v : Option Text)
    → found name headers ≡ v
    → found (wsgi name) headers ≡ none
    → extract_header_value (possible_names wsgi_first name) (normalize [] headers) ≡ v
unfolding possible_names extract_header_value lookup
header_value true name headers v e e' =
    ground (arith, lookup-normalize name [] headers, lookup-normalize (wsgi name) [] headers, e, e')
header_value false name headers v e e' =
    ground (arith, lookup-normalize name [] headers, lookup-normalize (wsgi name) [] headers, e, e')

read_given-show :
    (show_float : ℤ → ℕ → Text) (p : Option Number)
    → IsInt p
    → read_given (Option.map (show_number show_float) p) ≡ some p
read_given-show show_float none h = refl
read_given-show show_float (some (int i)) h = rw read-show_int
read_given-show show_float (some (float n d)) h = absurd h

read_id-show : (i : ℤ) → i ≢ pos 0 → read_id (show_int i) ≡ some (some i)
read_id-show i h = rw read-show_int (ground (arith, int_beq_iff i (pos 0)))

parse_headers-show :
    (show_float : ℤ → ℕ → Text) (a : ℕ) (t s : ℤ) (p : Option Number) (origin : Option Text)
    (st : Store)
    → t ≢ pos 0
    → s ≢ pos 0
    → IsInt p
    → parse_headers a (show_int t) (show_int s) (Option.map (show_number show_float) p) origin st
      ≡ some (new_context a (some t) (some s) origin p st)
unfolding parse_headers
parse_headers-show show_float a t s p origin st ht hs hp =
    rw (read_given-show show_float p hp, read_id-show t ht, read_id-show s hs)

extract-found :
    (wsgi_first : Text → Bool) (a : ℕ) (headers : Dict Text Text) (st : Store) (v : Text)
    → found trace_id_header headers ≡ some v
    → extract wsgi_first a headers st ≡ extract_normalized wsgi_first a (normalize [] headers) st
unfolding extract found
extract-found wsgi_first a [] st v h = absurd (ground arith)
extract-found wsgi_first a (e ∷ headers) st v h = refl

module _ (show_float : ℤ → ℕ → Text) (wsgi_first : Text → Bool) (a : ℕ) (st st' : Store)
    (c : Context) (headers : Dict Text Text) (clean : IsClean headers) where
  abbrev sent : Dict Text Text
  sent = inject show_float st c headers

  value :
      (name : Text) (v : Option Text)
      → found name sent ≡ v
      → found (wsgi name) sent ≡ none
      → extract_header_value (possible_names (wsgi_first name) name) (normalize [] sent) ≡ v
  value name = header_value (wsgi_first name) name sent

  -- the four values that the other side reads
  values :
      (extract_header_value
          (possible_names (wsgi_first trace_id_header) trace_id_header)
          (normalize [] sent)
        ≡ some (show_id c.trace_id))
      × (extract_header_value
            (possible_names (wsgi_first parent_id_header) parent_id_header)
            (normalize [] sent)
          ≡ some (show_id c.span_id))
      × (extract_header_value
            (possible_names (wsgi_first sampling_priority_header) sampling_priority_header)
            (normalize [] sent)
          ≡ Option.map (show_number show_float) (sampling_priority st c))
      × (extract_header_value
            (possible_names (wsgi_first origin_header) origin_header)
            (normalize [] sent)
          ≡ dd_origin st c)
  unfolding get_wsgi_header lower
  values = (
    value trace_id_header _ (found-inject show_float st c headers trace_id_header clean) (
        found-inject show_float st c headers (wsgi trace_id_header) clean
        ∙ found-Absent _ headers clean.wsgi_trace_id),
    value parent_id_header _ (found-inject show_float st c headers parent_id_header clean) (
        found-inject show_float st c headers (wsgi parent_id_header) clean
        ∙ found-Absent _ headers clean.wsgi_parent_id),
    value sampling_priority_header _
        (found-inject show_float st c headers sampling_priority_header clean
          ∙ rw (found-Absent sampling_priority_header headers clean.priority) (first_some-none _))
        (found-inject show_float st c headers (wsgi sampling_priority_header) clean
          ∙ found-Absent _ headers clean.wsgi_priority),
    value origin_header _
        (found-inject show_float st c headers origin_header clean
          ∙ rw (found-Absent origin_header headers clean.origin) (first_some-none _))
        (found-inject show_float st c headers (wsgi origin_header) clean
          ∙ found-Absent _ headers clean.wsgi_origin),
  )

  extract-sent :
      extract wsgi_first a sent st' ≡ extract_normalized wsgi_first a (normalize [] sent) st'
  unfolding get_wsgi_header lower
  extract-sent =
      extract-found wsgi_first a sent st' (show_id c.trace_id)
        (found-inject show_float st c headers trace_id_header clean)

  parsed :
      extract wsgi_first a sent st'
      ≡ or_default (no_context a st') (
          parse_headers a
            (show_id c.trace_id)
            (show_id c.span_id)
            (Option.map (show_number show_float) (sampling_priority st c))
            (dd_origin st c)
            st')
  unfolding extract_normalized context_from
  parsed = extract-sent ∙ rw (extract_normalized, values.0, values.1, values.2, values.3)

  -- A context with both ids, neither of them 0, whose priority is an int or missing, comes back
  -- from clean headers as it was sent: the same ids, priority and origin, whatever the other
  -- headers are and in whatever order the two spellings of a name are tried.
  pub extract-inject :
      (t s : ℤ)
      → c.trace_id ≡ some t
      → c.span_id ≡ some s
      → t ≢ pos 0
      → s ≢ pos 0
      → IsInt (sampling_priority st c)
      → let (d, st'') = extract wsgi_first a (inject show_float st c headers) st' in
        (d.trace_id ≡ some t)
        × (d.span_id ≡ some s)
        × (sampling_priority st'' d ≡ sampling_priority st c)
        × (dd_origin st'' d ≡ dd_origin st c)
  unfolding new_context parse_headers sampling_priority dd_origin
  extract-inject t s et es ht hs hp =
      let reads =
        new_context_reads a (some t) (some s) (dd_origin st c) (sampling_priority st c) st' in
      rw
        (
          parsed,
          et,
          es,
          parse_headers-show show_float a t s (sampling_priority st c) (dd_origin st c) st' ht hs
              hp,
        )
        (refl, refl, reads.0, reads.1)

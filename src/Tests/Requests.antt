-- ===== src/Tests/Requests.antt =====
-- The hypotheses of the theorems on settings, pins and HTTP requests at concrete inputs.
use dd_trace_py.Base.{false}
use dd_trace_py.Base.{
  ℕ, ◌≡◌, refl, Bool, true, none, some, List, [], ◌∷◌, ◌++◌, ◌*◌, ◌^◌, ◌≤◌, ◌<◌, ◌+◌, arith, inl,
  inr, nat_eq, codes_eq, Bool-cases, nat_beq, length, Option, sym, ap, ◌∙◌,
}
use mathlib.Core.Option
use mathlib.Core.Option.{some-injective}
use dd_trace_py.Base.Int.{pos, int_eq}
use dd_trace_py.Base.Decimal.{read_int}
use dd_trace_py.Base.Dict.{Dict}
use dd_trace_py.Base.Dict.{lookup}
use dd_trace_py.Base.Text.{Text, codes}
use dd_trace_py.Base.Updates.{literal}
use dd_trace_py.Base.Strings.{is_space, split}
use dd_trace_py.Capture.{CaptureSampler, new_capture_sampler, grain}
use dd_trace_py.Capture.Share.{captures, captures_lem, full}
use dd_trace_py.Cache.Bound.{cache_after, cached_f-within}
use dd_trace_py.Cache.Method.{new_object, new_object-IsFresh}
use dd_trace_py.Settings.{new_http_config, Configs, one, trace_query_string}
use dd_trace_py.Settings.Environment.{new_config, new_config-tags}
use dd_trace_py.Settings.Codes.{default_server_config, get_error_ranges, is_error_body}
use dd_trace_py.Settings.Answers
use dd_trace_py.Settings.Answers.{is_error_code-current}
use dd_trace_py.Settings.Coherent
use dd_trace_py.Settings.Coherent.{tag_name_for-current}
use dd_trace_py.Formats.{parse_tags_str}
use dd_trace_py.Formats.RoundTrip.{parse_tags_str-show, show_tags}
use dd_trace_py.Http.{Meta, number, int_status, set_http_meta}
use dd_trace_py.Http.Errors.{set_http_meta-has_error, has_error}
use dd_trace_py.Http.Query.{set_http_meta_private, tail_of}
use dd_trace_py.Flatten.{Tree, leaf, node, end, field, flatten}
use dd_trace_py.Flatten.Leaves.{leaves, flatten-leaves}
use dd_trace_py.Pin.{Pin, Info, no_arguments, World, seen, override, service_of}
use dd_trace_py.Pin.Isolation
use dd_trace_py.Pin.Steps.{IsClosed}
use dd_trace_py.Pin.Writes.{HasOwners}
use dd_trace_py.Pin.Isolation.{run-seen}
use dd_trace_py.Pin.Overriding.{override-service}

-- Half a percent, in parts of 2 ** -45
abbrev half_percent : ℕ
half_percent = 2 ^ 44

abbrev half_sampler : CaptureSampler
half_sampler = record { capture_pct = half_percent * grain; counter = 0 }

-- A rounding to whole parts leaves each number of parts as it is.
captures_lem_example :
    (new_capture_sampler (pos (half_percent * grain)) ≡ some half_sampler)
    × ((captures (λ x. x) 1000 half_sampler).1 * full ≤ 1000 * half_percent)
    × (1000 * half_percent < (captures (λ x. x) 1000 half_sampler).1 * full + full)
captures_lem_example = captures_lem (λ x. x) 1000 half_percent (λ m lt. refl) (omega arith)

abbrev asked_twice : List Answers.Use
asked_twice = Answers.asks (pos 404) ∷ Answers.sets (codes "400-499") ∷ Answers.asks (pos 404) ∷ []

is_error_code-current_example :
    Answers.run asked_twice default_server_config
    ≡ Answers.expected asked_twice (get_error_ranges (codes "500-599"))
is_error_code-current_example = is_error_code-current asked_twice

abbrev listed_between : List Coherent.Use
listed_between =
    Coherent.asks (codes "Host")
    ∷ Coherent.traces_everywhere (one (codes "host "))
    ∷ Coherent.asks (codes "Host")
    ∷ []

tag_name_for-current_example :
    Coherent.run listed_between
      (record { integration = new_http_config []; everywhere = new_http_config [] })
    ≡ Coherent.expected listed_between (Coherent.tag_in (literal [])) (Coherent.tag_in (literal []))
tag_name_for-current_example = tag_name_for-current [] [] listed_between

abbrev two_tags : List (Text × Text)
two_tags = (codes "team", codes "apm") ∷ (codes "tier", codes "1") ∷ []

parse_tags_str-show_example : parse_tags_str (some (show_tags two_tags)) ≡ literal two_tags
unfolding is_space
parse_tags_str-show_example =
    parse_tags_str-show (codes "team", codes "apm") ((codes "tier", codes "1") ∷ [])
      (
        (
          ((refl, refl), ((refl, refl), ((refl, refl), ((refl, refl), record {})))),
          ((refl, refl), ((refl, refl), ((refl, refl), record {}))),
        ),
        (
          (
            ((refl, refl), ((refl, refl), ((refl, refl), ((refl, refl), record {})))),
            ((refl, refl), record {}),
          ),
          record {},
        ),
      )

abbrev a_request : Meta
a_request = record {
  method = some (codes "GET");
  url = none;
  status_code = some (number (pos 503));
  status_msg = none;
  query = none;
  request_headers = none;
  response_headers = none;
  retries_remain = none;
}

abbrev no_tags : Configs
no_tags = record { integration = new_http_config []; everywhere = new_http_config [] }

set_http_meta_private_example :
    set_http_meta
      (record a_request {
        url = some ((codes "/cart" ++ (63 ∷ codes "a=1")) ++ tail_of none);
        query = none;
      })
      no_tags
      default_server_config
    ≡ set_http_meta
        (record a_request {
          url = some ((codes "/cart" ++ (63 ∷ codes "b=2")) ++ tail_of none);
          query = some (codes "b=2");
        })
        no_tags
        default_server_config
unfolding trace_query_string new_http_config new_object
set_http_meta_private_example =
    set_http_meta_private a_request no_tags default_server_config (codes "/cart") (codes "a=1")
      (codes "b=2") none none (some (codes "b=2")) refl
      (refl, (refl, (refl, (refl, (refl, record {}))))) (refl, (refl, (refl, record {})))
      (refl, (refl, (refl, record {})))

set_http_meta-has_error_example :
    has_error (set_http_meta a_request no_tags default_server_config).0 ≡ true
unfolding int_status default_server_config get_error_ranges split read_int is_space
set_http_meta-has_error_example =
    set_http_meta-has_error a_request no_tags default_server_config
      (new_object-IsFresh is_error_body 256 default_server_config.state)

abbrev class_pin : Info
class_pin = record { app = none; tags = none; tracer = 0; config = 0 }

abbrev first_pin : Pin
first_pin = record { info = class_pin; target = some 1 }

-- Object 2 inherits the pin of its class 1.
abbrev inherited : World
inherited = record {
  pins = (0, first_pin) ∷ [];
  next = 1;
  own = (1, 0) ∷ [];
  configs = (0, ("service_name", some (codes "db")) ∷ []) ∷ [];
  next_config = 1;
}

abbrev class_of : ℕ → List ℕ
class_of obj = 1 ∷ []

abbrev always : ℕ → Bool
always obj = true

inherited-IsClosed : IsClosed inherited
unfolding lookup
inherited-IsClosed = record {
  owned = λ obj. elim (Bool-cases (nat_beq 1 obj)) [
    | inl same ↦ rw same (omega arith)
    | inr other ↦ rw other (record {})
  ];
  held = λ p. elim (Bool-cases (nat_beq 0 p)) [
    | inl same ↦ rw same (omega arith)
    | inr other ↦ rw other (record {})
  ];
}

inherited-HasOwners : HasOwners inherited
unfolding lookup
inherited-HasOwners = (
  λ c. 1,
  λ j p pin x y. elim (Bool-cases (nat_beq 1 j)) [
    | inl at_j ↦ elim (Bool-cases (nat_beq 0 p)) [
      | inl at_p ↦
          let found = some-injective first_pin pin (ground (arith, at_p, y)) in
          let same = (nat_eq.beq_iff 1 j).0 at_j in
          (sym (ap (λ q. q.target) found) ∙ ap some same, same)
      | inr other ↦ absurd (ground (arith, other, y))
    ]
    | inr other ↦ absurd (ground (arith, other, x))
  ],
)

-- Object 2 takes the service of its pin for itself and writes to its configuration.
abbrev configured : List Isolation.Use
configured =
    Isolation.overrides (record no_arguments { service = some (codes "users") }) 2
    ∷ Isolation.configures "service_name" (some (codes "orders")) 2
    ∷ Isolation.gets 2
    ∷ []

run-seen_example :
    seen 0 class_of always always 3 (Isolation.run 0 class_of always always configured inherited)
    ≡ seen 0 class_of always always 3 inherited
run-seen_example =
    run-seen 0 class_of always always configured 3 inherited inherited-IsClosed inherited-HasOwners
      (
        (refl, (refl, record {})),
        ((refl, (refl, record {})), ((refl, (refl, record {})), record {})),
      )

override-service_example :
    Option.map service_of
      (seen 0 class_of always always 2 (override 0 class_of always always no_arguments 2 inherited))
    ≡ some (some (codes "db"))
unfolding lookup
override-service_example =
    override-service 0 class_of always always no_arguments 2 inherited refl refl

abbrev nested : Tree ℕ
nested =
    node
      (field (codes "a") (leaf 1) (field (codes "b") (node (field (codes "c") (leaf 2) end)) end))

abbrev nothing_excluded : Text → Bool
nothing_excluded p = false

flatten-leaves_example :
    flatten (codes ".") nothing_excluded (codes "x") nested
    ≡ some ((codes "x.b.c", 2) ∷ (codes "x.a", 1) ∷ [])
unfolding leaves
flatten-leaves_example = flatten-leaves (codes ".") nothing_excluded (codes "x") nested

abbrev given_twice : Dict Text Text
given_twice = (codes "DD_TAGS", codes "service:a,team:b") ∷ (codes "DD_SERVICE", codes "c") ∷ []

new_config-tags_example : lookup (codes "service") (new_config given_twice).tags ≡ none
unfolding new_config lookup
new_config-tags_example = new_config-tags given_twice (codes "service")

abbrev tens : ℕ → Option ℕ
tens k = some (10 * k)

cached_f-within_example : length (cache_after tens 2 (1 ∷ 2 ∷ 1 ∷ 3 ∷ 4 ∷ []) []) ≤ 2
cached_f-within_example =
    cached_f-within tens 2 (omega arith) (1 ∷ 2 ∷ 1 ∷ 3 ∷ 4 ∷ []) [] (omega arith)

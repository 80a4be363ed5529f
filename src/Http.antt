-- ===== src/Http.antt =====
-- ddtrace/contrib/trace_utils.py and ddtrace/utils/http.py: what an integration tells a span of a
-- request. The calls on the span are collected in their order. `_normalized_header_name` is behind
-- `cached`, which answers as the function does.
pub mod Query
pub mod Errors
use dd_trace_py.Base.{
  ℕ, Bool, true, false, ◌&&◌, ◌||◌, Option, none, some, List, [], ◌∷◌, ◌++◌, String, map, codes_eq,
  nat_beq, leb, any, if◌then◌else◌,
}
use dd_trace_py.Base.Int.{ℤ, int_eq}
use dd_trace_py.Base.Dict.{Dict}
use dd_trace_py.Base.Text.{Text, codes, lower}
use dd_trace_py.Base.Decimal.{show_int, read_int}
use dd_trace_py.Settings.{
  normalize_header_name, Configs, tag_name_for, is_tracing_configured, trace_query_string,
}
use dd_trace_py.Settings.Codes.{HttpServerConfig, is_error_code}

-- `text.partition(sep)`: what stands before the separator, and what follows it if it is there
abbrev pub cons_before : ℕ → Text × Option Text → Text × Option Text
cons_before c (before, after) = (c ∷ before, after)

unfoldable pub partition : ℕ → Text → Text × Option Text
partition sep [] = ([], none)
partition sep (c ∷ t) =
    let rest = partition sep t in if nat_beq c sep then ([], some t) else cons_before c rest

abbrev pub with_fragment : Text → Option Text → Text
with_fragment h none = h
with_fragment h (some []) = h
with_fragment h (some (c ∷ f)) = h ++ (35 ∷ c ∷ f)

-- 35 is `#`, 63 is `?`
unfoldable pub strip_query_string : Text → Text
strip_query_string url =
    let (hqs, f) = partition 35 url in let (h, _) = partition 63 hqs in with_fragment h f

-- `[a-z0-9_\-:/]`
abbrev pub is_plain : ℕ → Bool
is_plain c =
    (leb 97 c && leb c 122)
    || (leb 48 c && leb c 57)
    || (nat_beq c 95 || nat_beq c 45)
    || (nat_beq c 58 || nat_beq c 47)

unfoldable pub normalized_header_name : Text → Text
normalized_header_name name = map (λ c. if is_plain c then c else 95) (normalize_header_name name)

unfoldable pub normalize_tag_name : Text → Text → Text
normalize_tag_name kind name =
    codes "http." ++ (kind ++ (codes ".headers." ++ normalized_header_name name))

-- `span._set_str_tag`, `span.set_tag` and `span.error = 1`
pub data Call : Type 0 where
  set_str_tag : String → Text → Call
  set_tag : Text → Text → Call
  set_error : Call

-- An empty tag stands for the default one.
abbrev pub tag_or_default : Text → Text → Text → Text
tag_or_default kind name [] = normalize_tag_name kind name
tag_or_default kind name (c ∷ tag) = c ∷ tag

abbrev pub call_for : Text → Text → Text → Option (Option Text) → List Call
call_for kind name value none = []
call_for kind name value (some none) = []
call_for kind name value (some (some tag)) = set_tag (tag_or_default kind name tag) value ∷ []

unfoldable pub store_headers : Text → Dict Text Text → Configs → List Call × Configs
store_headers kind [] c = ([], c)
store_headers kind ((name, value) ∷ headers) c =
    let (tag, c') = tag_name_for name c in
    let (calls, c'') = store_headers kind headers c' in (call_for kind name value tag ++ calls, c'')

-- A status as it is given: `int` of another object raises a TypeError.
pub data Status : Type 0 where
  number : ℤ → Status
  text : Text → Status
  other : Status

unfoldable pub int_status : Status → Option ℤ
int_status (number n) = some n
int_status (text t) = read_int t
int_status other = none

unfoldable pub str_status : Status → Text
str_status (number n) = show_int n
str_status (text t) = t
str_status other = []

-- The arguments; the texts are what `str` makes of the values.
pub record Meta : Type 0 where
  pub method : Option Text
  pub url : Option Text
  pub status_code : Option Status
  pub status_msg : Option Text
  pub query : Option Text
  pub request_headers : Option (Dict Text Text)
  pub response_headers : Option (Dict Text Text)
  pub retries_remain : Option Text

abbrev pub str_tag_if : String → Option Text → List Call
str_tag_if key none = []
str_tag_if key (some value) = set_str_tag key value ∷ []

abbrev pub is_true : Option Bool → Bool
is_true none = false
is_true (some b) = b

unfoldable pub url_calls : Bool → Option Text → List Call
url_calls with_query none = []
url_calls with_query (some url) =
    set_str_tag "http.url" (if with_query then url else strip_query_string url) ∷ []

abbrev pub error_call : Bool → List Call
error_call b = if b then set_error ∷ [] else []

-- The tag of a status that reads as a number, and the error
abbrev pub status_of : Status → Option ℤ → HttpServerConfig → List Call × HttpServerConfig
status_of status none server = ([], server)
status_of status (some n) server =
    let (answer, server') = is_error_code n server in
    (set_str_tag "http.status_code" (str_status status) ∷ error_call (is_true answer), server')

unfoldable pub status_calls : Option Status → HttpServerConfig → List Call × HttpServerConfig
status_calls none server = ([], server)
status_calls (some status) server = status_of status (int_status status) server

unfoldable pub query_calls : Bool → Option Text → List Call
query_calls with_query query = if with_query then str_tag_if "http.query.string" query else []

unfoldable pub header_calls : Text → Option (Dict Text Text) → Configs → List Call × Configs
header_calls kind none c = ([], c)
header_calls kind (some headers) c =
    if is_tracing_configured c then store_headers kind headers c else ([], c)

unfoldable pub set_http_meta :
    Meta → Configs → HttpServerConfig → List Call × (Configs × HttpServerConfig)
set_http_meta m c server =
    let with_query = is_true (trace_query_string c) in
    let (status, server') = status_calls m.status_code server in
    let (request, c') = header_calls (codes "request") m.request_headers c in
    let (response, c'') = header_calls (codes "response") m.response_headers c' in
    (
      str_tag_if "http.method" m.method
          ++ (url_calls with_query m.url
              ++ (status
                  ++ (str_tag_if "http.status_msg" m.status_msg
                      ++ (query_calls with_query m.query
                          ++ (request
                              ++ (response
                                  ++ str_tag_if "http.retries_remain" m.retries_remain)))))),
      (c'', server'),
    )

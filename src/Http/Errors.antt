-- ===== src/Http/Errors.antt =====
-- ddtrace/contrib/trace_utils.py: when a request makes its span an error.
use dd_trace_py.Base.{
  ◌≡◌, refl, ◌∙◌, ap, arith, Bool, true, false, ◌||◌, Option, none, some, List, [], ◌∷◌, ◌++◌,
  String, if◌then◌else◌, codes_eq,
}
use dd_trace_py.Base.Int.{ℤ, int_eq}
use dd_trace_py.Base.Dict.{Dict}
use dd_trace_py.Base.Text.{Text, codes}
use dd_trace_py.Cache.Method.{IsFresh, call-IsFresh}
use dd_trace_py.Settings.{Configs, tag_name_for, is_tracing_configured, trace_query_string}
use dd_trace_py.Settings.Codes.{HttpServerConfig, is_error_body, in_ranges, is_error_code}
use dd_trace_py.Http.{
  Call, set_str_tag, set_tag, set_error, Meta, Status, int_status, is_true, str_tag_if, call_for,
  store_headers, error_call, status_of, status_calls, url_calls, query_calls, header_calls,
  set_http_meta,
}

abbrev is_error : Call → Bool
is_error (set_str_tag key value) = false
is_error (set_tag key value) = false
is_error set_error = true

abbrev pub has_error : List Call → Bool
has_error [] = false
has_error (c ∷ calls) = is_error c || has_error calls

-- The status reads as a number that lies in one of the ranges.
abbrev pub is_bad : List (ℤ × ℤ) → Option Status → Bool
is_bad ranges none = false
is_bad ranges (some status) = elim (int_status status) [
  | none ↦ false
  | some n ↦ in_ranges ranges n
]

has_error-append : (a b : List Call) → has_error (a ++ b) ≡ (has_error a || has_error b)
has_error-append [] b = refl
has_error-append (c ∷ a) b = ground (arith, has_error-append a b)

has_error-skip : (a b : List Call) → has_error a ≡ false → has_error (a ++ b) ≡ has_error b
has_error-skip a b h = has_error-append a b ∙ rw h refl

has_error-stop : (a b : List Call) → has_error b ≡ false → has_error (a ++ b) ≡ has_error a
has_error-stop a b h = ground (arith, has_error-append a b, h)

has_error-str_tag_if : (key : String) (o : Option Text) → has_error (str_tag_if key o) ≡ false
has_error-str_tag_if key none = refl
has_error-str_tag_if key (some v) = refl

has_error-url_calls : (b : Bool) (o : Option Text) → has_error (url_calls b o) ≡ false
unfolding url_calls
has_error-url_calls b none = refl
has_error-url_calls b (some v) = refl

has_error-query_calls : (b : Bool) (o : Option Text) → has_error (query_calls b o) ≡ false
unfolding query_calls
has_error-query_calls false o = refl
has_error-query_calls true o = has_error-str_tag_if "http.query.string" o

has_error-call_for :
    (kind name value : Text) (o : Option (Option Text))
    → has_error (call_for kind name value o) ≡ false
has_error-call_for kind name value none = refl
has_error-call_for kind name value (some none) = refl
has_error-call_for kind name value (some (some tag)) = refl

has_error-store_headers :
    (kind : Text) (headers : Dict Text Text) (c : Configs)
    → has_error (store_headers kind headers c).0 ≡ false
unfolding store_headers
has_error-store_headers kind [] c = refl
has_error-store_headers kind ((name, value) ∷ headers) c =
    let (tag, c') = tag_name_for name c in
    has_error-append (call_for kind name value tag) (store_headers kind headers c').0
    ∙ rw (has_error-call_for kind name value tag, has_error-store_headers kind headers c') refl

has_error-if :
    (b : Bool) (kind : Text) (headers : Dict Text Text) (c : Configs)
    → has_error (if b then store_headers kind headers c else ([], c)).0 ≡ false
has_error-if true kind headers c = has_error-store_headers kind headers c
has_error-if false kind headers c = refl

has_error-header_calls :
    (kind : Text) (o : Option (Dict Text Text)) (c : Configs)
    → has_error (header_calls kind o c).0 ≡ false
unfolding header_calls
has_error-header_calls kind none c = refl
has_error-header_calls kind (some headers) c = has_error-if (is_tracing_configured c) kind headers c

has_error-error_call : (b : Bool) → has_error (error_call b) ≡ b
has_error-error_call true = refl
has_error-error_call false = refl

has_error-status_of :
    (status : Status) (o : Option ℤ) (server : HttpServerConfig)
    → IsFresh is_error_body 256 server
    → has_error (status_of status o server).0
      ≡ (elim o [ none ↦ false | some n ↦ in_ranges server.state.error_ranges n ])
unfolding is_error_code
has_error-status_of status none server h = refl
has_error-status_of status (some n) server h =
    has_error-error_call (is_true (is_error_code n server).0)
    ∙ ap is_true ((call-IsFresh is_error_body 256 n server h).0)

has_error-status_calls :
    (o : Option Status) (server : HttpServerConfig)
    → IsFresh is_error_body 256 server
    → has_error (status_calls o server).0 ≡ is_bad server.state.error_ranges o
unfolding status_calls
has_error-status_calls none server h = refl
has_error-status_calls (some status) server h =
    has_error-status_of status (int_status status) server h

-- `set_http_meta` makes the span an error exactly where a status is given that reads as an integer
-- in one of the configured ranges, whatever the cache of `is_error_code` holds, as long as it holds
-- what the method answers.
pub set_http_meta-has_error :
    (m : Meta) (c : Configs) (server : HttpServerConfig)
    → IsFresh is_error_body 256 server
    → has_error (set_http_meta m c server).0 ≡ is_bad server.state.error_ranges m.status_code
unfolding set_http_meta
set_http_meta-has_error m c server h =
    let with_query = is_true (trace_query_string c) in
    let status = (status_calls m.status_code server).0 in
    let (request, c') = header_calls (codes "request") m.request_headers c in
    let response = (header_calls (codes "response") m.response_headers c').0 in
    let retries = str_tag_if "http.retries_remain" m.retries_remain in
    let query = query_calls with_query m.query in
    let message = str_tag_if "http.status_msg" m.status_msg in
    let tags = query ++ (request ++ (response ++ retries)) in
    has_error-skip (str_tag_if "http.method" m.method) _
      (has_error-str_tag_if "http.method" m.method)
    ∙ has_error-skip (url_calls with_query m.url) _ (has_error-url_calls with_query m.url)
    ∙ has_error-stop status (message ++ tags) (
        has_error-skip message tags (has_error-str_tag_if "http.status_msg" m.status_msg)
        ∙ has_error-skip query (request ++ (response ++ retries))
            (has_error-query_calls with_query m.query)
        ∙ has_error-skip request (response ++ retries)
            (has_error-header_calls (codes "request") m.request_headers c)
        ∙ has_error-skip response retries
            (has_error-header_calls (codes "response") m.response_headers c')
        ∙ has_error-str_tag_if "http.retries_remain" m.retries_remain)
    ∙ has_error-status_calls m.status_code server h

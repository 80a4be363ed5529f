-- ===== src/Settings.antt =====
-- ddtrace/settings: which status codes are errors (config.py), and which headers become tags
-- (http.py, integration.py). A method with a cache is an object of Cache/Method.antt.
pub mod Codes
pub mod Coherent
pub mod Answers
pub mod Environment
use mathlib.Core.Option
use dd_trace_py.Base.{
  ℕ, Bool, true, false, ◌&&◌, ◌||◌, Option, none, some, List, [], ◌∷◌, map, codes_eq, if◌then◌else◌,
}
use dd_trace_py.Base.Dict.{Dict, lookup, insert, contains}
use dd_trace_py.Base.Text.{Text, lower}
use dd_trace_py.Base.Strings.{strip, is_space}
use dd_trace_py.Base.Updates.{literal, or_else}
use dd_trace_py.Cache.Method.{Object, new_object, call, change}

-- utils/http.py
unfoldable pub normalize_header_name : Text → Text
unfolding lower
normalize_header_name name = lower (strip is_space name)

-- `HttpConfig`
pub record HttpSettings : Type 0 where
  pub header_tags : Dict Text Text
  pub trace_query_string : Option Bool

abbrev pub HttpConfig : Type 0
HttpConfig = Object HttpSettings Text (Option Text)

-- The body of `_header_tag_name`; the outer `some` says that it does not raise.
unfoldable pub header_tag_name_body : HttpSettings → Text → Option (Option Text)
header_tag_name_body s name = elim s.header_tags [
  | [] ↦ some none
  | e ∷ tags ↦ some (lookup (normalize_header_name name) (e ∷ tags))
]

unfoldable pub new_http_config : Dict Text Text → HttpConfig
unfolding new_object
new_http_config tags = new_object header_tag_name_body 256 (record {
  header_tags = literal (map (λ e. (normalize_header_name e.0, e.1)) tags);
  trace_query_string = none;
})

unfoldable pub header_tag_name : Text → HttpConfig → Option (Option Text) × HttpConfig
header_tag_name name c = call header_tag_name_body 256 name c

unfoldable pub is_header_tracing_configured : HttpConfig → Bool
is_header_tracing_configured c = elim c.state.header_tags [ [] ↦ false | e ∷ tags ↦ true ]

-- `self._header_tags.setdefault(name, "")` for each name of the whitelist that is not empty
unfoldable pub whitelisted : List Text → Dict Text Text → Dict Text Text
whitelisted [] tags = tags
whitelisted (entry ∷ rest) tags = elim (normalize_header_name entry) [
  | [] ↦ whitelisted rest tags
  | c ∷ name ↦
      whitelisted rest (if contains (c ∷ name) tags then tags else insert (c ∷ name) [] tags)
]

-- The argument of `trace_headers`, a text or a list of texts
pub data Whitelist : Type 0 where
  one : Text → Whitelist
  many : List Text → Whitelist

abbrev pub entries : Whitelist → List Text
entries (one []) = []
entries (one (c ∷ t)) = (c ∷ t) ∷ []
entries (many ts) = ts

unfoldable pub trace_entries : List Text → HttpConfig → HttpConfig
trace_entries [] c = c
trace_entries (entry ∷ rest) c =
    change header_tag_name_body 256
      (λ s. record s { header_tags = whitelisted (entry ∷ rest) s.header_tags }) c

unfoldable pub trace_headers : Whitelist → HttpConfig → HttpConfig
trace_headers w c = trace_entries (entries w) c

-- An integration has settings of its own beside the global ones.
pub record Configs : Type 0 where
  pub integration : HttpConfig
  pub everywhere : HttpConfig

-- `IntegrationConfig._header_tag_name`: the global tag where the integration has none
abbrev pub or_everywhere : Option (Option Text) → Text → Configs → Option (Option Text) × Configs
or_everywhere none name c = (none, c)
or_everywhere (some (some tag)) name c = (some (some tag), c)
or_everywhere (some none) name c =
    let (shared, everywhere) = header_tag_name name c.everywhere in
    (shared, record c { everywhere = everywhere })

unfoldable pub tag_name_for : Text → Configs → Option (Option Text) × Configs
tag_name_for name c =
    let (own, integration) = header_tag_name name c.integration in
    or_everywhere own name (record c { integration = integration })

-- `IntegrationConfig.is_header_tracing_configured` and `trace_query_string`
unfoldable pub is_tracing_configured : Configs → Bool
unfolding is_header_tracing_configured
is_tracing_configured c =
    is_header_tracing_configured c.integration || is_header_tracing_configured c.everywhere

unfoldable pub trace_query_string : Configs → Option Bool
trace_query_string c =
    or_else c.integration.state.trace_query_string c.everywhere.state.trace_query_string

-- ===== src/Settings/Environment.antt =====
-- ddtrace/settings/config.py: `Config.__init__`, what the configuration reads from the environment.
use dd_trace_py.Base.{
  ◌≡◌, refl, ◌∙◌, arith, Bool, true, false, ◌&&◌, Option, none, some, List, [], ◌∷◌, codes_eq,
  if◌then◌else◌, Bool-cases, inl, inr, ◌==◌,
}
use dd_trace_py.Base.Dict.{Dict, lookup, erase, contains, lookup-erase}
use dd_trace_py.Base.Text.{Text, codes}
use dd_trace_py.Ci.Refs.{is_truthy, or_text}
use dd_trace_py.Formats.{Setting, flag, text, get_env, asbool, parse_tags_str}
use dd_trace_py.Settings.{HttpConfig, new_http_config}
use dd_trace_py.Settings.Codes.{HttpServerConfig, default_server_config}

pub record Config : Type 0 where
  pub http : HttpConfig
  pub analytics_enabled : Bool
  pub tags : Dict Text Text
  pub env : Option Text
  pub service : Option Text
  pub version : Option Text
  pub http_server : HttpServerConfig
  pub service_mapping : Dict Text Text
  pub logs_injection : Bool
  pub report_hostname : Bool
  pub health_metrics_enabled : Bool
  pub raises : Bool

-- `get_env(..., default=...)` where the default is a bool or what another call answers
abbrev pub setting_or : Setting → Option Text → Setting
setting_or default none = default
setting_or default (some t) = text t

abbrev pub get_setting : Dict Text Text → List Text → Setting → Setting
get_setting env parts default = setting_or default (get_env env parts none)

-- `del self.tags[key]` where the value is set and the key is there
abbrev pub without_key : Text → Option Text → Dict Text Text → Dict Text Text
without_key key value tags = if is_truthy value && contains key tags then erase key tags else tags

unfoldable pub new_config : Dict Text Text → Config
unfolding get_env asbool parse_tags_str new_http_config default_server_config
new_config env =
    let tags = parse_tags_str (lookup (codes "DD_TAGS") env) in
    let service =
      or_text (lookup (codes "DD_SERVICE") env)
        (or_text (lookup (codes "DATADOG_SERVICE") env) (lookup (codes "service") tags)) in
    let version = or_text (lookup (codes "DD_VERSION") env) (lookup (codes "version") tags) in
    let legacy = get_setting env (codes "analytics" ∷ codes "enabled" ∷ []) (flag false) in
    record {
      http =
          new_http_config
            (parse_tags_str (get_env env (codes "trace" ∷ codes "header_tags" ∷ []) none));
      analytics_enabled =
          asbool (get_setting env (codes "trace" ∷ codes "analytics_enabled" ∷ []) legacy);
      tags = without_key (codes "version") version (without_key (codes "service") service tags);
      env = or_text (lookup (codes "DD_ENV") env) (lookup (codes "env") tags);
      service = service;
      version = version;
      http_server = default_server_config;
      service_mapping =
          parse_tags_str (get_env env (codes "service" ∷ codes "mapping" ∷ []) (some []));
      logs_injection =
          asbool (get_setting env (codes "logs" ∷ codes "injection" ∷ []) (flag false));
      report_hostname =
          asbool (get_setting env (codes "trace" ∷ codes "report_hostname" ∷ []) (flag false));
      health_metrics_enabled =
          asbool
            (get_setting env (codes "trace" ∷ codes "health_metrics_enabled" ∷ []) (flag false));
      raises = asbool (setting_or (flag false) (lookup (codes "DD_TESTING_RAISE") env));
    }

erase-lookup :
    (b : Bool) (key other : Text) (tags : Dict Text Text)
    → lookup other (if b && contains key tags then erase key tags else tags)
      ≡ (if key == other && b then none else lookup other tags)
erase-lookup false key other tags = ground arith
erase-lookup true key other tags = elim (Bool-cases (contains key tags)) [
  | inl there ↦ rw there (ground (arith, lookup-erase key other tags))
  | inr missing_there ↦ rw missing_there (ground (arith, missing_there, codes_eq.beq_iff key other))
]

-- The tags of the configuration are those of DD_TAGS, less `service` where the service of the
-- configuration is a text that is not empty, and less `version` where its version is one,
-- whichever setting they come from.
pub new_config-tags :
    (env : Dict Text Text) (key : Text)
    → lookup key (new_config env).tags ≡ (
        if codes "version" == key && is_truthy (new_config env).version
        then none
        else if codes "service" == key && is_truthy (new_config env).service
        then none
        else lookup key (parse_tags_str (lookup (codes "DD_TAGS") env)))
unfolding new_config
new_config-tags env key =
    let tags = parse_tags_str (lookup (codes "DD_TAGS") env) in
    let service = (new_config env).service in
    let version = (new_config env).version in
    erase-lookup (is_truthy version) (codes "version") key
      (without_key (codes "service") service tags)
    ∙ rw (erase-lookup (is_truthy service) (codes "service") key tags) refl

-- ===== src/Settings/Answers.antt =====
-- ddtrace/settings/config.py: the cache of `is_error_code` never shows.
use dd_trace_py.Base.{◌≡◌, refl, Bool, Option, some, List, [], ◌∷◌}
use dd_trace_py.Base.Int.{ℤ, int_eq}
use dd_trace_py.Base.Text.{Text, codes}
use dd_trace_py.Cache.Method.{IsFresh, new_object-IsFresh, change-IsFresh, call-IsFresh}
use dd_trace_py.Settings.Codes.{
  HttpServerConfig, is_error_body, get_error_ranges, in_ranges, default_server_config,
  set_error_statuses, is_error_code,
}

-- What is done with the configuration, in order
pub data Use : Type 0 where
  asks : ℤ → Use
  sets : Text → Use

-- The answers to the questions
abbrev pub run : List Use → HttpServerConfig → List (Option Bool)
run [] c = []
run (asks status ∷ uses) c = (is_error_code status c).0 ∷ run uses (is_error_code status c).1
run (sets value ∷ uses) c = run uses (set_error_statuses value c)

-- The answers read off the ranges that were set last
abbrev pub expected : List Use → List (ℤ × ℤ) → List (Option Bool)
expected [] ranges = []
expected (asks status ∷ uses) ranges = some (in_ranges ranges status) ∷ expected uses ranges
expected (sets value ∷ uses) ranges = expected uses (get_error_ranges value)

run-expected :
    (uses : List Use) (c : HttpServerConfig)
    → IsFresh is_error_body 256 c
    → run uses c ≡ expected uses c.state.error_ranges
unfolding is_error_code set_error_statuses
run-expected [] c h = refl
run-expected (asks status ∷ uses) c h =
    let (v, (same, fresh)) = call-IsFresh is_error_body 256 status c h in
    rw (v, run-expected uses (is_error_code status c).1 fresh, same) refl
run-expected (sets value ∷ uses) c h = run-expected uses (set_error_statuses value c) (
    change-IsFresh is_error_body 256
      (λ s. record { error_statuses = value; error_ranges = get_error_ranges value }) c)

-- From the default configuration, through any sequence of questions and changes, `is_error_code`
-- answers whether the status lies in one of the ranges of the text that was set last, or of
-- 500-599: no answer comes from ranges that are set no more.
pub is_error_code-current :
    (uses : List Use)
    → run uses default_server_config ≡ expected uses (get_error_ranges (codes "500-599"))
unfolding default_server_config
is_error_code-current uses =
    run-expected uses default_server_config
      (new_object-IsFresh is_error_body 256 default_server_config.state)

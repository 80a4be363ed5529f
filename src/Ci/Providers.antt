-- ===== src/Ci/Providers.antt =====
-- ddtrace/ext/ci.py: the providers, in the order in which they are tried.
pub mod Early
pub mod Late
use mathlib.Core.Option.{Option, some}
use dd_trace_py.Base.{List, [], ◌∷◌, String}
use dd_trace_py.Base.Text.{Text}
use dd_trace_py.Ci.Git.{Env, Tags}
use dd_trace_py.Ci.Providers.Early.{
  extract_appveyor, extract_azure_pipelines, extract_bitbucket, extract_buildkite,
  extract_circle_ci,
}
use dd_trace_py.Ci.Providers.Late.{
  extract_github_actions, extract_gitlab, extract_jenkins, extract_teamcity, extract_travis,
  extract_bitrise,
}

-- The variable that tells the provider, and what makes the tags; `none` is an exception.
unfoldable pub providers : (Text → Text → Option Text) → List (String × (Env → Option Tags))
providers sub =
    ("APPVEYOR", λ env. some (extract_appveyor env))
    ∷ ("TF_BUILD", λ env. some (extract_azure_pipelines env))
    ∷ ("BITBUCKET_COMMIT", λ env. some (extract_bitbucket env))
    ∷ ("BUILDKITE", λ env. some (extract_buildkite env))
    ∷ ("CIRCLECI", λ env. some (extract_circle_ci env))
    ∷ ("GITHUB_SHA", λ env. some (extract_github_actions env))
    ∷ ("GITLAB_CI", extract_gitlab)
    ∷ ("JENKINS_URL", extract_jenkins sub)
    ∷ ("TEAMCITY_VERSION", λ env. some (extract_teamcity env))
    ∷ ("TRAVIS", λ env. some (extract_travis env))
    ∷ ("BITRISE_BUILD_SLUG", λ env. some (extract_bitrise env))
    ∷ []

-- ===== src/Ci/Providers/Late.antt =====
-- ddtrace/ext/ci.py: the tags of Github, Gitlab, Jenkins, Teamcity, Travis and Bitrise.
use mathlib.Core.Option
use dd_trace_py.Base.{keep}
use dd_trace_py.Base.{
  Bool, false, ◌&&◌, ◌||◌, not, Option, none, some, List, [], ◌∷◌, ◌++◌, string_eq, codes_eq,
  nat_beq, if◌then◌else◌, nat_eq,
}
use dd_trace_py.Base.Dict.{lookup}
use dd_trace_py.Base.Text.{Text, codes}
use dd_trace_py.Base.Strings.{contains_text, split, split_two, join, strip, replace}
use dd_trace_py.Base.Updates.{literal, or_else}
use dd_trace_py.Ci.Refs.{is_truthy, or_text, shown, normalize_ref}
use dd_trace_py.Ci.Git.{Env, Tags}
use dd_trace_py.Ci.Git.Names.{
  branch, commit_sha, repository_url, tag, author_name, author_email, author_date, committer_name,
  committer_email, commit_message, stage_name, job_name, job_url, pipeline_id, pipeline_name,
  pipeline_number, pipeline_url, provider_name, workspace_path,
}
use dd_trace_py.Ci.Providers.Early.{branch_and_tag, shown_or_empty}

unfoldable pub extract_github_actions : Env → Tags
extract_github_actions env =
    let branch_or_tag =
      or_text (lookup "GITHUB_HEAD_REF" env) (or_text (lookup "GITHUB_REF" env) (some [])) in
    let (on_branch, at_tag) = branch_and_tag branch_or_tag in
    literal (
      (branch, on_branch)
      ∷ (commit_sha, lookup "GITHUB_SHA" env)
      ∷ (
        repository_url,
        some (
            codes "https://github.com/"
            ++ (shown (lookup "GITHUB_REPOSITORY" env) ++ (codes ".git"))),
      )
      ∷ (tag, at_tag)
      ∷ (
        job_url,
        some (
            codes "https://github.com/"
            ++ (shown (lookup "GITHUB_REPOSITORY" env)
                ++ (codes "/commit/" ++ (shown (lookup "GITHUB_SHA" env) ++ (codes "/checks"))))),
      )
      ∷ (pipeline_id, lookup "GITHUB_RUN_ID" env)
      ∷ (pipeline_name, lookup "GITHUB_WORKFLOW" env)
      ∷ (pipeline_number, lookup "GITHUB_RUN_NUMBER" env)
      ∷ (
        pipeline_url,
        some (
            codes "https://github.com/"
            ++ (shown (lookup "GITHUB_REPOSITORY" env)
                ++ (codes "/commit/" ++ (shown (lookup "GITHUB_SHA" env) ++ (codes "/checks"))))),
      )
      ∷ (provider_name, some (codes "github"))
      ∷ (workspace_path, lookup "GITHUB_WORKSPACE" env)
      ∷ [])

-- The name and the e-mail of the author; the inner `none` is None, the outer one the ValueError
abbrev unpack_author : List Text → Option (Option Text × Option Text)
unpack_author (name ∷ email ∷ []) = some (some name, some email)
unpack_author _ = none

abbrev pub author_of : Option Text → Option (Option Text × Option Text)
author_of author =
    if is_truthy author
    then unpack_author (split_two 32 60 (strip (λ c. nat_beq c 62 || nat_beq c 32) (shown author)))
    else some (none, none)

abbrev plain_url : Option Text → Option Text
plain_url none = none
plain_url (some url) = some (replace (codes "/-/pipelines/") (codes "/pipelines/") url)

abbrev pub gitlab_table : Env → Option Text × Option Text → Tags
gitlab_table env (author, email) =
    let url = plain_url (lookup "CI_PIPELINE_URL" env) in
    let commit_timestamp = lookup "CI_COMMIT_TIMESTAMP" env in
    literal (
      (branch, lookup "CI_COMMIT_BRANCH" env)
      ∷ (commit_sha, lookup "CI_COMMIT_SHA" env)
      ∷ (repository_url, lookup "CI_REPOSITORY_URL" env)
      ∷ (tag, lookup "CI_COMMIT_TAG" env)
      ∷ (stage_name, lookup "CI_JOB_STAGE" env)
      ∷ (job_name, lookup "CI_JOB_NAME" env)
      ∷ (job_url, lookup "CI_JOB_URL" env)
      ∷ (pipeline_id, lookup "CI_PIPELINE_ID" env)
      ∷ (pipeline_name, lookup "CI_PROJECT_PATH" env)
      ∷ (pipeline_number, lookup "CI_PIPELINE_IID" env)
      ∷ (pipeline_url, url)
      ∷ (provider_name, some (codes "gitlab"))
      ∷ (workspace_path, lookup "CI_PROJECT_DIR" env)
      ∷ (commit_message, lookup "CI_COMMIT_MESSAGE" env)
      ∷ (author_name, author)
      ∷ (author_email, email)
      ∷ (author_date, commit_timestamp)
      ∷ [])

-- `none` is the ValueError of an author that is not `name <email>`.
unfoldable pub extract_gitlab : Env → Option Tags
extract_gitlab env = Option.map (gitlab_table env) (author_of (lookup "CI_COMMIT_AUTHOR" env))

abbrev is_plain : Text → Bool
is_plain [] = false
is_plain (c ∷ t) = not (contains_text (codes "=") (c ∷ t))

abbrev plain_name : Option Text → Option Text
plain_name none = none
plain_name (some []) = some []
plain_name (some (c ∷ t)) = some (join (codes "/") (keep is_plain (split 47 (c ∷ t))))

-- `re.sub(pattern, "", name)`, a parameter: `none` is the error of a pattern that does not compile
abbrev pub without_branch :
    (Text → Text → Option Text) → Option Text → Option Text → Option (Option Text)
without_branch sub branch name =
    if is_truthy name && is_truthy branch
    then Option.map some (sub (codes "/" ++ shown (normalize_ref branch)) (shown name))
    else some name

abbrev pub jenkins_table : Env → Option Text × Option Text → Option Text → Tags
jenkins_table env (on_branch, at_tag) given =
    let name = plain_name given in
    literal (
      (branch, on_branch)
      ∷ (commit_sha, lookup "GIT_COMMIT" env)
      ∷ (repository_url, or_else (lookup "GIT_URL" env) (lookup "GIT_URL_1" env))
      ∷ (tag, at_tag)
      ∷ (pipeline_id, lookup "BUILD_TAG" env)
      ∷ (pipeline_name, name)
      ∷ (pipeline_number, lookup "BUILD_NUMBER" env)
      ∷ (pipeline_url, lookup "BUILD_URL" env)
      ∷ (provider_name, some (codes "jenkins"))
      ∷ (workspace_path, lookup "WORKSPACE" env)
      ∷ [])

unfoldable pub extract_jenkins : (Text → Text → Option Text) → Env → Option Tags
extract_jenkins sub env =
    let refs = branch_and_tag (some (shown_or_empty (lookup "GIT_BRANCH" env))) in
    Option.map (jenkins_table env refs) (without_branch sub refs.0 (lookup "JOB_NAME" env))

unfoldable pub extract_teamcity : Env → Tags
extract_teamcity env = literal (
    (commit_sha, lookup "BUILD_VCS_NUMBER" env)
    ∷ (repository_url, lookup "BUILD_VCS_URL" env)
    ∷ (pipeline_id, lookup "BUILD_ID" env)
    ∷ (pipeline_number, lookup "BUILD_NUMBER" env)
    ∷ (
      pipeline_url,
      if is_truthy (lookup "SERVER_URL" env) && is_truthy (lookup "BUILD_ID" env)
          then some (
              shown (lookup "SERVER_URL" env)
              ++ (codes "/viewLog.html?buildId=" ++ (shown (lookup "BUILD_ID" env))))
          else none,
    )
    ∷ (provider_name, some (codes "teamcity"))
    ∷ (workspace_path, lookup "BUILD_CHECKOUTDIR" env)
    ∷ [])

unfoldable pub extract_travis : Env → Tags
extract_travis env = literal (
    (branch, or_text (lookup "TRAVIS_PULL_REQUEST_BRANCH" env) (lookup "TRAVIS_BRANCH" env))
    ∷ (commit_sha, lookup "TRAVIS_COMMIT" env)
    ∷ (
      repository_url,
      some (
          codes "https://github.com/" ++ (shown (lookup "TRAVIS_REPO_SLUG" env) ++ (codes ".git"))),
    )
    ∷ (tag, lookup "TRAVIS_TAG" env)
    ∷ (job_url, lookup "TRAVIS_JOB_WEB_URL" env)
    ∷ (pipeline_id, lookup "TRAVIS_BUILD_ID" env)
    ∷ (pipeline_name, lookup "TRAVIS_REPO_SLUG" env)
    ∷ (pipeline_number, lookup "TRAVIS_BUILD_NUMBER" env)
    ∷ (pipeline_url, lookup "TRAVIS_BUILD_WEB_URL" env)
    ∷ (provider_name, some (codes "travisci"))
    ∷ (workspace_path, lookup "TRAVIS_BUILD_DIR" env)
    ∷ (commit_message, lookup "TRAVIS_COMMIT_MESSAGE" env)
    ∷ [])

unfoldable pub extract_bitrise : Env → Tags
extract_bitrise env =
    let commit = or_text (lookup "BITRISE_GIT_COMMIT" env) (lookup "GIT_CLONE_COMMIT_HASH" env) in
    let on_branch =
      or_text (lookup "BITRISEIO_GIT_BRANCH_DEST" env) (lookup "BITRISE_GIT_BRANCH" env) in
    let subject = lookup "GIT_CLONE_COMMIT_MESSAGE_SUBJECT" env in
    let body = lookup "GIT_CLONE_COMMIT_MESSAGE_BODY" env in
    let message = or_text (lookup "BITRISE_GIT_MESSAGE" env) (
      if is_truthy subject || is_truthy body
      then some (shown subject ++ (codes ":\n" ++ shown body))
      else none) in
    literal (
      (provider_name, some (codes "bitrise"))
      ∷ (pipeline_id, lookup "BITRISE_BUILD_SLUG" env)
      ∷ (pipeline_name, lookup "BITRISE_TRIGGERED_WORKFLOW_ID" env)
      ∷ (pipeline_number, lookup "BITRISE_BUILD_NUMBER" env)
      ∷ (pipeline_url, lookup "BITRISE_BUILD_URL" env)
      ∷ (workspace_path, lookup "BITRISE_SOURCE_DIR" env)
      ∷ (repository_url, lookup "GIT_REPOSITORY_URL" env)
      ∷ (commit_sha, commit)
      ∷ (branch, on_branch)
      ∷ (tag, lookup "BITRISE_GIT_TAG" env)
      ∷ (commit_message, message)
      ∷ (author_name, lookup "GIT_CLONE_COMMIT_AUTHOR_NAME" env)
      ∷ (author_email, lookup "GIT_CLONE_COMMIT_AUTHOR_EMAIL" env)
      ∷ (committer_name, lookup "GIT_CLONE_COMMIT_COMMITER_NAME" env)
      ∷ (committer_email, lookup "GIT_CLONE_COMMIT_COMMITER_NAME" env)
      ∷ [])

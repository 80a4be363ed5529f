-- ===== src/Ci/Providers/Early.antt =====
-- ddtrace/ext/ci.py: the tags of Appveyor, Azure, Bitbucket, Buildkite and CircleCI.
use dd_trace_py.Base.{
  Bool, false, ◌&&◌, ◌||◌, Option, none, some, [], ◌∷◌, ◌++◌, string_eq, codes_eq, ◌==◌, nat_beq,
  if◌then◌else◌, nat_eq,
}
use dd_trace_py.Base.Dict.{lookup}
use dd_trace_py.Base.Text.{Text, codes}
use dd_trace_py.Base.Strings.{contains_text, strip}
use dd_trace_py.Base.Updates.{literal}
use dd_trace_py.Ci.Refs.{is_truthy, or_text, shown}
use dd_trace_py.Ci.Git.{Env, Tags}
use dd_trace_py.Ci.Git.Names.{
  branch, commit_sha, repository_url, tag, author_name, author_email, committer_name,
  committer_email, commit_message, job_name, job_url, pipeline_id, pipeline_name, pipeline_number,
  pipeline_url, provider_name, workspace_path,
}

abbrev pub shown_or_empty : Option Text → Text
shown_or_empty none = []
shown_or_empty (some t) = t

-- The branch, and the tag: `tags/` in the name makes it a tag.
abbrev pub branch_and_tag : Option Text → Option Text × Option Text
branch_and_tag o = if contains_text (codes "tags/") (shown_or_empty o) then (none, o) else (o, none)

abbrev provided_by : Text → Option Text → Bool
provided_by name none = false
provided_by name (some t) = t == name

unfoldable pub extract_appveyor : Env → Tags
extract_appveyor env =
    let name = lookup "APPVEYOR_REPO_NAME" env in
    let url = some (
      codes "https://ci.appveyor.com/project/"
      ++ (shown name ++ (codes "/builds/" ++ shown (lookup "APPVEYOR_BUILD_ID" env)))) in
    let on_github = provided_by (codes "github") (lookup "APPVEYOR_REPO_PROVIDER" env) in
    let repository =
      if on_github
      then some (codes "https://github.com/" ++ (shown name ++ codes ".git"))
      else none in
    let commit = if on_github then lookup "APPVEYOR_REPO_COMMIT" env else none in
    let on_branch =
      if on_github
      then or_text (lookup "APPVEYOR_PULL_REQUEST_HEAD_REPO_BRANCH" env)
          (lookup "APPVEYOR_REPO_BRANCH" env)
      else none in
    let at_tag = if on_github then lookup "APPVEYOR_REPO_TAG_NAME" env else none in
    literal (
      (provider_name, some (codes "appveyor"))
      ∷ (repository_url, repository)
      ∷ (commit_sha, commit)
      ∷ (workspace_path, lookup "APPVEYOR_BUILD_FOLDER" env)
      ∷ (pipeline_id, lookup "APPVEYOR_BUILD_ID" env)
      ∷ (pipeline_name, lookup "APPVEYOR_REPO_NAME" env)
      ∷ (pipeline_number, lookup "APPVEYOR_BUILD_NUMBER" env)
      ∷ (pipeline_url, url)
      ∷ (job_url, url)
      ∷ (branch, on_branch)
      ∷ (tag, at_tag)
      ∷ (commit_message, lookup "APPVEYOR_REPO_COMMIT_MESSAGE_EXTENDED" env)
      ∷ (author_name, lookup "APPVEYOR_REPO_COMMIT_AUTHOR" env)
      ∷ (author_email, lookup "APPVEYOR_REPO_COMMIT_AUTHOR_EMAIL" env)
      ∷ [])

unfoldable pub extract_azure_pipelines : Env → Tags
extract_azure_pipelines env =
    let server = lookup "SYSTEM_TEAMFOUNDATIONSERVERURI" env in
    let project = lookup "SYSTEM_TEAMPROJECTID" env in
    let build = lookup "BUILD_BUILDID" env in
    let is_known = is_truthy server && (is_truthy project && is_truthy build) in
    let base_url =
      shown server ++ (shown project ++ (codes "/_build/results?buildId=" ++ shown build)) in
    let pipeline_link = if is_known then some base_url else none in
    let job_link =
      if is_known
      then some (
          base_url
          ++ (codes "&view=logs&j="
              ++ (shown (lookup "SYSTEM_JOBID" env)
                  ++ (codes "&t=" ++ shown (lookup "SYSTEM_TASKINSTANCEID" env)))))
      else none in
    let branch_or_tag = or_text (lookup "SYSTEM_PULLREQUEST_SOURCEBRANCH" env) (
      or_text (lookup "BUILD_SOURCEBRANCH" env)
        (or_text (lookup "BUILD_SOURCEBRANCHNAME" env) (some []))) in
    let (on_branch, at_tag) = branch_and_tag branch_or_tag in
    literal (
      (provider_name, some (codes "azurepipelines"))
      ∷ (workspace_path, lookup "BUILD_SOURCESDIRECTORY" env)
      ∷ (pipeline_id, lookup "BUILD_BUILDID" env)
      ∷ (pipeline_name, lookup "BUILD_DEFINITIONNAME" env)
      ∷ (pipeline_number, lookup "BUILD_BUILDID" env)
      ∷ (pipeline_url, pipeline_link)
      ∷ (job_url, job_link)
      ∷ (
        repository_url,
        or_text (lookup "SYSTEM_PULLREQUEST_SOURCEREPOSITORYURI" env)
            (lookup "BUILD_REPOSITORY_URI" env),
      )
      ∷ (
        commit_sha,
        or_text (lookup "SYSTEM_PULLREQUEST_SOURCECOMMITID" env) (lookup "BUILD_SOURCEVERSION" env),
      )
      ∷ (branch, on_branch)
      ∷ (tag, at_tag)
      ∷ (commit_message, lookup "BUILD_SOURCEVERSIONMESSAGE" env)
      ∷ (author_name, lookup "BUILD_REQUESTEDFORID" env)
      ∷ (author_email, lookup "BUILD_REQUESTEDFOREMAIL" env)
      ∷ [])

unfoldable pub extract_bitbucket : Env → Tags
extract_bitbucket env =
    let url = some (
      codes "https://bitbucket.org/"
      ++ (shown (lookup "BITBUCKET_REPO_FULL_NAME" env)
          ++ (codes "/addon/pipelines/home#!/results/"
              ++ shown (lookup "BITBUCKET_BUILD_NUMBER" env)))) in
    literal (
      (branch, lookup "BITBUCKET_BRANCH" env)
      ∷ (commit_sha, lookup "BITBUCKET_COMMIT" env)
      ∷ (repository_url, lookup "BITBUCKET_GIT_SSH_ORIGIN" env)
      ∷ (tag, lookup "BITBUCKET_TAG" env)
      ∷ (job_url, url)
      ∷ (
        pipeline_id,
        or_text
            (some (
              strip (λ c. nat_beq c 123 || nat_beq c 125)
                (shown_or_empty (lookup "BITBUCKET_PIPELINE_UUID" env))))
            none,
      )
      ∷ (pipeline_name, lookup "BITBUCKET_REPO_FULL_NAME" env)
      ∷ (pipeline_number, lookup "BITBUCKET_BUILD_NUMBER" env)
      ∷ (pipeline_url, url)
      ∷ (provider_name, some (codes "bitbucket"))
      ∷ (workspace_path, lookup "BITBUCKET_CLONE_DIR" env)
      ∷ [])

unfoldable pub extract_buildkite : Env → Tags
extract_buildkite env = literal (
    (branch, lookup "BUILDKITE_BRANCH" env)
    ∷ (commit_sha, lookup "BUILDKITE_COMMIT" env)
    ∷ (repository_url, lookup "BUILDKITE_REPO" env)
    ∷ (tag, lookup "BUILDKITE_TAG" env)
    ∷ (pipeline_id, lookup "BUILDKITE_BUILD_ID" env)
    ∷ (pipeline_name, lookup "BUILDKITE_PIPELINE_SLUG" env)
    ∷ (pipeline_number, lookup "BUILDKITE_BUILD_NUMBER" env)
    ∷ (pipeline_url, lookup "BUILDKITE_BUILD_URL" env)
    ∷ (
      job_url,
      some (
          shown (lookup "BUILDKITE_BUILD_URL" env)
          ++ (codes "#" ++ (shown (lookup "BUILDKITE_JOB_ID" env)))),
    )
    ∷ (provider_name, some (codes "buildkite"))
    ∷ (workspace_path, lookup "BUILDKITE_BUILD_CHECKOUT_PATH" env)
    ∷ (commit_message, lookup "BUILDKITE_MESSAGE" env)
    ∷ (author_name, lookup "BUILDKITE_BUILD_AUTHOR" env)
    ∷ (author_email, lookup "BUILDKITE_BUILD_AUTHOR_EMAIL" env)
    ∷ (committer_name, lookup "BUILDKITE_BUILD_CREATOR" env)
    ∷ (committer_email, lookup "BUILDKITE_BUILD_CREATOR_EMAIL" env)
    ∷ [])

unfoldable pub extract_circle_ci : Env → Tags
extract_circle_ci env = literal (
    (branch, lookup "CIRCLE_BRANCH" env)
    ∷ (commit_sha, lookup "CIRCLE_SHA1" env)
    ∷ (repository_url, lookup "CIRCLE_REPOSITORY_URL" env)
    ∷ (tag, lookup "CIRCLE_TAG" env)
    ∷ (pipeline_id, lookup "CIRCLE_WORKFLOW_ID" env)
    ∷ (pipeline_name, lookup "CIRCLE_PROJECT_REPONAME" env)
    ∷ (pipeline_number, lookup "CIRCLE_BUILD_NUM" env)
    ∷ (
      pipeline_url,
      some (
          codes "https://app.circleci.com/pipelines/workflows/"
          ++ (shown (lookup "CIRCLE_WORKFLOW_ID" env))),
    )
    ∷ (job_url, lookup "CIRCLE_BUILD_URL" env)
    ∷ (job_name, lookup "CIRCLE_JOB" env)
    ∷ (provider_name, some (codes "circleci"))
    ∷ (workspace_path, lookup "CIRCLE_WORKING_DIRECTORY" env)
    ∷ [])

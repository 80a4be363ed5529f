-- ===== src/Ci/Sources.antt =====
-- ddtrace/ext/ci.py and ddtrace/ext/git.py: what the sources of the tags look like, and what `tags`
-- answers from them.
use mathlib.Core.Option
use dd_trace_py.Base.{
  ◌≡◌, refl, ap, Option, none, some, List, [], ◌∷◌, String, string_eq, Bool-cases, inl, inr, Every,
  Every-imp,
}
use dd_trace_py.Base.Dict.{lookup, contains, insert}
use dd_trace_py.Base.Text.{Text}
use dd_trace_py.Base.Updates.{IsUnique, literal, insert-IsUnique, update-IsUnique}
use dd_trace_py.Ci.{Platform, provider_tags, git_info, tags}
use dd_trace_py.Ci.Git.{
  Env, Tags, Process, Answer, answer, value_error, not_found, put, run_all, set_users, Person,
  extract_user_git_metadata, extract_git_metadata, extract_workspace_path, extract_repository_url,
  extract_commit_message, extract_user_info, extract_branch, extract_commit_sha, map_answer,
}
use dd_trace_py.Ci.Git.Names.{branch, repository_url, workspace_path, commit_sha, commit_message}
use dd_trace_py.Ci.Precedence.{answer_for, lookup-finish}
use dd_trace_py.Ci.Providers.{providers}
use dd_trace_py.Ci.Providers.Early.{
  extract_appveyor, extract_azure_pipelines, extract_bitbucket, extract_buildkite,
  extract_circle_ci,
}
use dd_trace_py.Ci.Providers.Late.{
  gitlab_table, jenkins_table, extract_github_actions, extract_gitlab, extract_jenkins,
  extract_teamcity, extract_travis, extract_bitrise,
}

-- A step of the `try` keeps the keys apart.
abbrev Keeps : Answer (Tags → Tags) → Type 0
Keeps (answer f) = (t : Tags) → IsUnique t → IsUnique (f t)
Keeps value_error = Unit
Keeps not_found = Unit

abbrev AllKeep : List (Answer (Tags → Tags)) → Type 0
AllKeep [] = Unit
AllKeep (s ∷ steps) = Keeps s × AllKeep steps

run_all-IsUnique :
    (steps : List (Answer (Tags → Tags))) (t : Tags)
    → AllKeep steps
    → IsUnique t
    → IsUnique (run_all steps t)
run_all-IsUnique [] t h u = u
run_all-IsUnique (answer f ∷ steps) t h u = run_all-IsUnique steps (f t) h.1 (h.0 t u)
run_all-IsUnique (value_error ∷ steps) t h u = u
run_all-IsUnique (not_found ∷ steps) t h u = u

put-Keeps : (key : String) (a : Answer Text) → Keeps (put key a)
put-Keeps key (answer v) = λ t u. insert-IsUnique key (some v) t u
put-Keeps key value_error = record {}
put-Keeps key not_found = record {}

set_users-Keeps : (a : Answer (Person × Person)) → Keeps (map_answer set_users a)
set_users-Keeps (answer (author, committer)) = λ t u. insert-IsUnique _ _ _ (
    insert-IsUnique _ _ _ (
      insert-IsUnique _ _ _
        (insert-IsUnique _ _ _ (insert-IsUnique _ _ _ (insert-IsUnique _ _ _ u)))))
set_users-Keeps value_error = record {}
set_users-Keeps not_found = record {}

extract_git_metadata-IsUnique :
    (popen : List Text → Process) → IsUnique (extract_git_metadata popen)
unfolding extract_git_metadata
extract_git_metadata-IsUnique popen =
    run_all-IsUnique
      (put repository_url (extract_repository_url popen)
        ∷ put commit_message (extract_commit_message popen)
        ∷ map_answer set_users (extract_user_info popen)
        ∷ put branch (extract_branch popen)
        ∷ put commit_sha (extract_commit_sha popen)
        ∷ [])
      []
      (
        put-Keeps repository_url (extract_repository_url popen),
        (
          put-Keeps commit_message (extract_commit_message popen),
          (
            set_users-Keeps (extract_user_info popen),
            (
              put-Keeps branch (extract_branch popen),
              (put-Keeps commit_sha (extract_commit_sha popen), record {}),
            ),
          ),
        ),
      )
      (record {})

with_path-IsUnique :
    (a : Answer Text) (t : Tags)
    → IsUnique t
    → IsUnique (elim a [
      | answer path ↦ insert workspace_path (some path) t
      | value_error ↦ t
      | not_found ↦ t
    ])
with_path-IsUnique (answer path) t u = insert-IsUnique workspace_path (some path) t u
with_path-IsUnique value_error t u = u
with_path-IsUnique not_found t u = u

git_info-IsUnique : (popen : List Text → Process) → IsUnique (git_info popen)
unfolding git_info
git_info-IsUnique popen =
    with_path-IsUnique (extract_workspace_path popen) _ (extract_git_metadata-IsUnique popen)

extract_user_git_metadata-IsUnique : (env : Env) → IsUnique (extract_user_git_metadata env)
unfolding extract_user_git_metadata
extract_user_git_metadata-IsUnique env = update-IsUnique _ [] (record {})

AllUnique : List (String × (Env → Option Tags)) → Type 0
AllUnique [] = Unit
AllUnique ((key, extract) ∷ rest) = ((env : Env) → Every IsUnique (extract env)) × AllUnique rest

provider_tags-IsUnique :
    (table : List (String × (Env → Option Tags))) (env : Env)
    → AllUnique table
    → Every IsUnique (provider_tags table env)
unfolding provider_tags AllUnique
provider_tags-IsUnique [] env h = record {}
provider_tags-IsUnique ((key, extract) ∷ rest) env h = elim (Bool-cases (contains key env)) [
  | inl there ↦ rw there (h.0 env)
  | inr missing ↦ rw missing (provider_tags-IsUnique rest env h.1)
]

map-IsUnique {ℓ} :
    {A : Type ℓ} (f : A → Tags) (o : Option A)
    → ((x : A) → IsUnique (f x))
    → Every IsUnique (Option.map f o)
map-IsUnique f none h = record {}
map-IsUnique f (some x) h = h x

extract_gitlab-IsUnique : (env : Env) → Every IsUnique (extract_gitlab env)
unfolding extract_gitlab
extract_gitlab-IsUnique env =
    map-IsUnique (gitlab_table env) _ (λ who. update-IsUnique _ [] (record {}))

extract_jenkins-IsUnique :
    (sub : Text → Text → Option Text) (env : Env) → Every IsUnique (extract_jenkins sub env)
unfolding extract_jenkins
extract_jenkins-IsUnique sub env =
    map-IsUnique (jenkins_table env _) _ (λ name. update-IsUnique _ [] (record {}))

providers-AllUnique : (sub : Text → Text → Option Text) → AllUnique (providers sub)
unfolding providers AllUnique extract_appveyor extract_azure_pipelines extract_bitbucket
    extract_buildkite extract_circle_ci extract_github_actions extract_gitlab extract_jenkins
    extract_teamcity extract_travis extract_bitrise
providers-AllUnique sub =
    let u : (d : Tags) → IsUnique (literal d) = λ d. update-IsUnique d [] (record {}) in
    (
      λ env. u _,
      (
        λ env. u _,
        (
          λ env. u _,
          (
            λ env. u _,
            (
              λ env. u _,
              (
                λ env. u _,
                (
                  extract_gitlab-IsUnique,
                  (
                    extract_jenkins-IsUnique sub,
                    (λ env. u _, (λ env. u _, (λ env. u _, record {}))),
                  ),
                ),
              ),
            ),
          ),
        ),
      ),
    )

map-Every {ℓ κ λ'} :
    {A : Type ℓ} {B : Type κ} {C : Type λ'} (f : A → B) (g : B → C) (h : A → C) (o : Option A)
    → Every (λ x. g (f x) ≡ h x) o
    → Option.map g (Option.map f o) ≡ Option.map h o
map-Every f g h none e = refl
map-Every f g h (some x) e = ap some e

-- What `tags` has for a key, whatever the environment, git and the platform say, is what
-- `answer_for` reads off the tags of the first provider whose variable is set, the git information
-- and the tags of the user: the user's text, else the provider's, else git's, the first that is not
-- empty; no branch beside a tag; names without refs/, origin/ and tags/; a URL that is filtered; an
-- expanded path; and the platform's own keys. It raises where the function of the provider does.
pub tags_lem :
    (sub : Text → Text → Option Text) (expanduser : Text → Text) (p : Platform)
    (popen : List Text → Process) (env : Env) (key : String)
    → Option.map (lookup key) (tags sub expanduser p popen env)
      ≡ Option.map
          (λ t. answer_for expanduser p (git_info popen) (extract_user_git_metadata env) t key)
          (provider_tags (providers sub) env)
unfolding tags
tags_lem sub expanduser p popen env key = map-Every _ _ _ (provider_tags (providers sub) env) (
    Every-imp _ _
      (λ t u.
        lookup-finish expanduser p _ _ t key (git_info-IsUnique popen)
          (extract_user_git_metadata-IsUnique env) u)
      _ (provider_tags-IsUnique (providers sub) env (providers-AllUnique sub)))

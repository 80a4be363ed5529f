-- ===== src/Ci/Git.antt =====
-- ddtrace/ext/git.py: what the git command and the environment say of a commit. The process that
-- runs git is a parameter; the log is not modelled.
pub mod Names
use Prim.Native.Char.{code}
use dd_trace_py.Base.{
  ℕ, Bool, true, false, Option, none, some, List, [], ◌∷◌, String, string_eq, nat_beq,
  if◌then◌else◌,
}
use dd_trace_py.Base.Int.{ℤ, pos, negsuc}
use dd_trace_py.Base.Dict.{Dict, lookup, insert}
use dd_trace_py.Base.Text.{Text, codes}
use dd_trace_py.Base.Strings.{split, strip, is_space}
use dd_trace_py.Base.Updates.{literal}
use dd_trace_py.Ci.Git.Names.*

-- Environment variables, and tags: a tag can be there with the value None.
abbrev pub Env : Type 0
Env = Dict String Text

abbrev pub Tags : Type 0
Tags = Dict String (Option Text)

-- How a process ends: with its return code and its output, which may not decode, or because the
-- executable is not found.
pub data Process : Type 0 where
  exited : ℤ → Option Text → Process
  missing : Process

-- The answer, or the exception: ValueError or GitNotFoundError
pub data Answer {ℓ} (A : Type ℓ) : Type ℓ where
  answer : A → Answer A
  value_error : Answer A
  not_found : Answer A

abbrev pub map_answer {ℓ κ} : {A : Type ℓ} {B : Type κ} → (A → B) → Answer A → Answer B
map_answer f (answer a) = answer (f a)
map_answer f value_error = value_error
map_answer f not_found = not_found

abbrev pub is_zero : ℤ → Bool
is_zero (pos n) = nat_beq n 0
is_zero (negsuc n) = false

abbrev pub of_decoded : Option Text → Answer Text
of_decoded none = value_error
of_decoded (some t) = answer (strip is_space t)

abbrev pub of_process : Process → Answer Text
of_process missing = not_found
of_process (exited returncode stdout) =
    if is_zero returncode then of_decoded stdout else value_error

-- One who wrote or committed: name, e-mail and date
pub record Person : Type 0 where
  pub name : Text
  pub email : Text
  pub date : Text

-- The unpacking of six values
abbrev pub users_of : List Text → Answer (Person × Person)
users_of (a ∷ b ∷ c ∷ d ∷ e ∷ f ∷ []) =
    answer (record { name = a; email = b; date = c }, record { name = d; email = e; date = f })
users_of _ = value_error

abbrev pub users_of_output : Answer Text → Answer (Person × Person)
users_of_output (answer stdout) = users_of (split 44 stdout)
users_of_output value_error = value_error
users_of_output not_found = not_found

abbrev pub set_users : Person × Person → Tags → Tags
set_users (author, committer) tags = insert committer_date (some committer.date) (
    insert committer_email (some committer.email) (
      insert committer_name (some committer.name) (
        insert author_date (some author.date)
          (insert author_email (some author.email) (insert author_name (some author.name) tags)))))

module _ (popen : List Text → Process) where
  -- `_git_subprocess_cmd`
  unfoldable pub git_subprocess_cmd : Text → Answer Text
  git_subprocess_cmd cmd = of_process (popen (codes "git" ∷ split 32 cmd))

  unfoldable pub extract_user_info : Answer (Person × Person)
  unfolding git_subprocess_cmd split
  extract_user_info = users_of_output (
      git_subprocess_cmd
        (codes "show -s --format=%an,%ae,%ad,%cn,%ce,%cd --date=format:%Y-%m-%dT%H:%M:%S%z"))

  unfoldable pub extract_repository_url : Answer Text
  unfolding git_subprocess_cmd
  extract_repository_url = git_subprocess_cmd (codes "ls-remote --get-url")

  unfoldable pub extract_commit_message : Answer Text
  unfolding git_subprocess_cmd
  extract_commit_message = git_subprocess_cmd (codes "show -s --format=%s")

  unfoldable pub extract_workspace_path : Answer Text
  unfolding git_subprocess_cmd
  extract_workspace_path = git_subprocess_cmd (codes "rev-parse --show-toplevel")

  unfoldable pub extract_branch : Answer Text
  unfolding git_subprocess_cmd
  extract_branch = git_subprocess_cmd (codes "rev-parse --abbrev-ref HEAD")

  unfoldable pub extract_commit_sha : Answer Text
  unfolding git_subprocess_cmd
  extract_commit_sha = git_subprocess_cmd (codes "rev-parse HEAD")

-- A statement of the `try`: what it does to the tags, or the exception that ends the `try`
abbrev pub run_all : List (Answer (Tags → Tags)) → Tags → Tags
run_all [] tags = tags
run_all (answer f ∷ steps) tags = run_all steps (f tags)
run_all (value_error ∷ steps) tags = tags
run_all (not_found ∷ steps) tags = tags

abbrev pub put : String → Answer Text → Answer (Tags → Tags)
put key a = map_answer (λ v tags. insert key (some v) tags) a

unfoldable pub extract_git_metadata : (List Text → Process) → Tags
extract_git_metadata popen =
    run_all
      (put repository_url (extract_repository_url popen)
        ∷ put commit_message (extract_commit_message popen)
        ∷ map_answer set_users (extract_user_info popen)
        ∷ put branch (extract_branch popen)
        ∷ put commit_sha (extract_commit_sha popen)
        ∷ [])
      []

unfoldable pub extract_user_git_metadata : Env → Tags
extract_user_git_metadata env = literal (
    (repository_url, lookup "DD_GIT_REPOSITORY_URL" env)
    ∷ (commit_sha, lookup "DD_GIT_COMMIT_SHA" env)
    ∷ (branch, lookup "DD_GIT_BRANCH" env)
    ∷ (tag, lookup "DD_GIT_TAG" env)
    ∷ (commit_message, lookup "DD_GIT_COMMIT_MESSAGE" env)
    ∷ (author_date, lookup "DD_GIT_COMMIT_AUTHOR_DATE" env)
    ∷ (author_email, lookup "DD_GIT_COMMIT_AUTHOR_EMAIL" env)
    ∷ (author_name, lookup "DD_GIT_COMMIT_AUTHOR_NAME" env)
    ∷ (committer_date, lookup "DD_GIT_COMMIT_COMMITTER_DATE" env)
    ∷ (committer_email, lookup "DD_GIT_COMMIT_COMMITTER_EMAIL" env)
    ∷ (committer_name, lookup "DD_GIT_COMMIT_COMMITTER_NAME" env)
    ∷ [])

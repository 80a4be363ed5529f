-- ===== src/Ci.antt =====
-- ddtrace/ext/ci.py: the tags of a run in a CI system, from the environment, from git and from the
-- platform. The processes, `os.path.expanduser`, `re.sub` with a pattern made of a branch, and what
-- the platform says of itself are parameters.
pub mod Git
pub mod Refs
pub mod Providers
pub mod Keys
pub mod Precedence
pub mod Sources
pub mod Matching
pub mod Credentials
use mathlib.Core.Option
use dd_trace_py.Base.{
  Bool, true, false, ◌&&◌, not, Option, none, some, List, [], ◌∷◌, String, string_eq, ◌==◌,
  if◌then◌else◌, is_some,
}
use dd_trace_py.Base.Dict.{Dict, lookup, contains, insert, erase, update}
use dd_trace_py.Base.Text.{Text}
use dd_trace_py.Base.Updates.{literal, keep_items}
use dd_trace_py.Ci.Git.{
  Env, Tags, Process, Answer, answer, value_error, not_found, extract_git_metadata,
  extract_workspace_path, extract_user_git_metadata,
}
use dd_trace_py.Ci.Git.Names.{
  branch, tag, repository_url, workspace_path, os_architecture, os_platform, os_version,
  runtime_name, runtime_version,
}
use dd_trace_py.Ci.Refs.{is_truthy, normalize_ref, filter_sensitive_info}
use dd_trace_py.Ci.Providers.{providers}

-- `tags.get(key)`: None for a key that is missing, and for one with the value None
abbrev pub flat : Option (Option Text) → Option Text
flat none = none
flat (some v) = v

abbrev pub get : String → Tags → Option Text
get key tags = flat (lookup key tags)

-- What the `platform` module says
pub record Platform : Type 0 where
  pub machine : Text
  pub system : Text
  pub release : Text
  pub python_implementation : Text
  pub python_version : Text

-- `_get_runtime_and_os_metadata`
unfoldable pub runtime_metadata : Platform → Tags
runtime_metadata p = literal (
    (os_architecture, some p.machine)
    ∷ (os_platform, some p.system)
    ∷ (os_version, some p.release)
    ∷ (runtime_name, some p.python_implementation)
    ∷ (runtime_version, some p.python_version)
    ∷ [])

-- The first provider whose variable is set
unfoldable pub provider_tags : List (String × (Env → Option Tags)) → Env → Option Tags
provider_tags [] env = some []
provider_tags ((key, extract) ∷ rest) env =
    let later = provider_tags rest env in if contains key env then extract env else later

unfoldable pub git_info : (List Text → Process) → Tags
git_info popen = elim (extract_workspace_path popen) [
  | answer path ↦ insert workspace_path (some path) (extract_git_metadata popen)
  | value_error ↦ extract_git_metadata popen
  | not_found ↦ extract_git_metadata popen
]

-- The git information where the provider says nothing, then what the user says
unfoldable pub merge : Tags → Tags → Tags → Tags
merge from_git from_user tags =
    let with_git = update tags (keep_items (λ k v. not (is_truthy (get k tags))) from_git) in
    update with_git (keep_items (λ k v. is_truthy v) from_user)

-- A tag, and no branch with a tag
unfoldable pub settle_refs : Tags → Tags
settle_refs tags =
    let with_tag = insert tag (normalize_ref (get tag tags)) tags in
    let without_branch =
      if is_truthy (get tag with_tag) && contains branch with_tag
      then erase branch with_tag
      else with_tag in
    insert branch (normalize_ref (get branch without_branch)) without_branch

unfoldable pub settle_url : Tags → Tags
settle_url tags = insert repository_url (filter_sensitive_info (get repository_url tags)) tags

unfoldable pub settle_path : (Text → Text) → Tags → Tags
settle_path expanduser tags =
    if is_truthy (get workspace_path tags)
    then insert workspace_path (Option.map expanduser (get workspace_path tags)) tags
    else tags

-- `{k: v for k, v in tags.items() if v is not None}`
unfoldable pub given_only : Tags → Dict String Text
given_only [] = []
given_only ((k, none) ∷ tags) = given_only tags
given_only ((k, some v) ∷ tags) = (k, v) ∷ given_only tags

unfoldable pub finish : (Text → Text) → Platform → Tags → Dict String Text
finish expanduser platform merged =
    given_only (
      update (settle_path expanduser (settle_url (settle_refs merged))) (runtime_metadata platform))

-- `tags`; `none` is an exception of the provider's function
unfoldable pub tags :
    (Text → Text → Option Text)
    → (Text → Text)
    → Platform
    → (List Text → Process)
    → Env
    → Option (Dict String Text)
tags sub expanduser platform popen env =
    Option.map
      (λ t. finish expanduser platform (merge (git_info popen) (extract_user_git_metadata env) t))
      (provider_tags (providers sub) env)

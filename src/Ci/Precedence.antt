-- ===== src/Ci/Precedence.antt =====
-- ddtrace/ext/ci.py: which of the sources each tag comes from.
use mathlib.Core.Option
use dd_trace_py.Base.{
  ◌≡◌, refl, ◌∙◌, arith, Bool, true, false, ◌&&◌, not, Option, none, some, [], ◌∷◌, String,
  string_eq, ◌==◌, if◌then◌else◌, Bool-cases, inl, inr,
}
use dd_trace_py.Base.Dict.{lookup, contains, insert, erase, update, lookup-insert, lookup-erase}
use dd_trace_py.Base.Text.{Text}
use dd_trace_py.Base.Updates.{
  or_else, IsUnique, keep_items, lookup-keep_items, lookup-update, update-IsUnique,
  keep_items-IsUnique,
}
use dd_trace_py.Ci.{
  flat, get, Platform, runtime_metadata, merge, settle_refs, settle_url, settle_path, given_only,
  finish,
}
use dd_trace_py.Ci.Git.{Tags}
use dd_trace_py.Ci.Git.Names.{
  branch, tag, repository_url, workspace_path, os_architecture, os_platform, os_version,
  runtime_name, runtime_version,
}
use dd_trace_py.Ci.Refs.{is_truthy, or_text, normalize_ref, filter_sensitive_info}
use dd_trace_py.Ci.Keys.{
  settle_refs-IsUnique, settle_path-IsUnique, settle_url-IsUnique, merge-IsUnique,
}

-- What the user says, or what the provider says, or what git says: the first that is a text that
-- is not empty. A value of the provider that git does not replace stays as it is.
abbrev pub chosen : Option Text → Option Text → Option (Option Text) → Option Text
chosen user provider from_git =
    or_text user (if is_truthy provider then provider else flat (or_else from_git (some provider)))

-- What `tags` answers for a key, read off the three sources.
abbrev pub answer_for :
    (Text → Text) → Platform → (from_git from_user provider : Tags) → String → Option Text
answer_for expanduser p from_git from_user provider key =
    let pick : String → Option Text =
      λ k. chosen (get k from_user) (get k provider) (lookup k from_git) in
    if runtime_version == key
    then some p.python_version
    else if runtime_name == key
    then some p.python_implementation
    else if os_version == key
    then some p.release
    else if os_platform == key
    then some p.system
    else if os_architecture == key
    then some p.machine
    else if workspace_path == key && is_truthy (pick workspace_path)
    then Option.map expanduser (pick workspace_path)
    else if repository_url == key
    then filter_sensitive_info (pick repository_url)
    else if branch == key
    then (if is_truthy (normalize_ref (pick tag)) then none else normalize_ref (pick branch))
    else if tag == key
    then normalize_ref (pick tag)
    else pick key

get-insert :
    (k j : String) (v : Option Text) (d : Tags)
    → get j (insert k v d) ≡ (if k == j then v else get j d)
get-insert k j v d = ground (arith, lookup-insert k j v d)

get-erase : (k j : String) (d : Tags) → get j (erase k d) ≡ (if k == j then none else get j d)
get-erase k j d = ground (arith, lookup-erase k j d)

lookup-given_only : (k : String) (d : Tags) → IsUnique d → lookup k (given_only d) ≡ get k d
unfolding lookup given_only
lookup-given_only k [] u = refl
lookup-given_only k ((j, none) ∷ d) u =
    ground (arith, string_eq.beq_iff j k, lookup-given_only k d u.1, u.0)
lookup-given_only k ((j, some v) ∷ d) u = ground (arith, lookup-given_only k d u.1)

get-merge :
    (k : String) (from_git from_user t : Tags)
    → IsUnique from_git
    → IsUnique from_user
    → get k (merge from_git from_user t) ≡ chosen (get k from_user) (get k t) (lookup k from_git)
unfolding merge
get-merge k from_git from_user t u v =
    let p : String → Option Text → Bool = λ k v. not (is_truthy (get k t)) in
    let q : String → Option Text → Bool = λ k v. is_truthy v in
    ground (
      arith,
      lookup-update k (keep_items q from_user) (update t (keep_items p from_git))
          (keep_items-IsUnique q from_user v),
      lookup-update k (keep_items p from_git) t (keep_items-IsUnique p from_git u),
      lookup-keep_items p k from_git u,
      lookup-keep_items q k from_user v,
    )

get-erase_if :
    (c : Bool) (k j : String) (d : Tags)
    → get j (if c && contains k d then erase k d else d) ≡ (if k == j && c then none else get j d)
get-erase_if false k j d = ground arith
get-erase_if true k j d = elim (Bool-cases (contains k d)) [
  | inl there ↦ rw there (ground (arith, get-erase k j d))
  | inr missing ↦ rw missing (ground (arith, missing, string_eq.beq_iff k j))
]

normalize_unless :
    (b c : Bool) (v x : Option Text)
    → (if b then normalize_ref (if c then none else v) else if b && c then none else x)
      ≡ (if b then (if c then none else normalize_ref v) else x)
unfolding normalize_ref
normalize_unless false c v x = refl
normalize_unless true false v x = refl
normalize_unless true true v x = refl

get-settle_refs :
    (k : String) (t : Tags)
    → get k (settle_refs t) ≡ (
        if branch == k
        then (if is_truthy (normalize_ref (get tag t)) then none else normalize_ref (get branch t))
        else if tag == k
        then normalize_ref (get tag t)
        else get k t)
unfolding settle_refs normalize_ref
get-settle_refs k t =
    let v = normalize_ref (get tag t) in
    let w = insert tag v t in
    let b = if is_truthy (get tag w) && contains branch w then erase branch w else w in
    get-insert branch k (normalize_ref (get branch b)) b
    ∙ rw
        (
          get-erase_if (is_truthy (get tag w)) branch k w,
          get-erase_if (is_truthy (get tag w)) branch branch w,
          get-insert tag tag v t,
          get-insert tag branch v t,
          get-insert tag k v t,
        )
        (normalize_unless (branch == k) (is_truthy v) (get branch t)
          (if tag == k then v else get k t))

get-settle_url :
    (k : String) (t : Tags)
    → get k (settle_url t)
      ≡ (if repository_url == k then filter_sensitive_info (get repository_url t) else get k t)
unfolding settle_url
get-settle_url k t = get-insert repository_url k (filter_sensitive_info (get repository_url t)) t

get-settle_path :
    (expanduser : Text → Text) (k : String) (t : Tags)
    → get k (settle_path expanduser t) ≡ (
        if workspace_path == k && is_truthy (get workspace_path t)
        then Option.map expanduser (get workspace_path t)
        else get k t)
unfolding settle_path
get-settle_path expanduser k t =
    ground (arith, get-insert workspace_path k (Option.map expanduser (get workspace_path t)) t)

get-runtime_metadata :
    (p : Platform) (k : String) (t : Tags)
    → get k (update t (runtime_metadata p)) ≡ (
        if runtime_version == k
        then some p.python_version
        else if runtime_name == k
        then some p.python_implementation
        else if os_version == k
        then some p.release
        else if os_platform == k
        then some p.system
        else if os_architecture == k
        then some p.machine
        else get k t)
unfolding runtime_metadata update insert
get-runtime_metadata p k t =
    let t1 = insert os_architecture (some p.machine) t in
    let t2 = insert os_platform (some p.system) t1 in
    let t3 = insert os_version (some p.release) t2 in
    let t4 = insert runtime_name (some p.python_implementation) t3 in
    rw
      (
        get-insert runtime_version k (some p.python_version) t4,
        get-insert runtime_name k (some p.python_implementation) t3,
        get-insert os_version k (some p.release) t2,
        get-insert os_platform k (some p.system) t1,
        get-insert os_architecture k (some p.machine) t,
      )
      refl

pub lookup-finish :
    (expanduser : Text → Text) (p : Platform) (from_git from_user t : Tags) (k : String)
    → IsUnique from_git
    → IsUnique from_user
    → IsUnique t
    → lookup k (finish expanduser p (merge from_git from_user t))
      ≡ answer_for expanduser p from_git from_user t k
unfolding finish
lookup-finish expanduser p from_git from_user t k ug uu u =
    let m = merge from_git from_user t in
    let r = settle_refs m in
    let w = settle_url r in
    let s = settle_path expanduser w in
    let um =
      settle_url-IsUnique r (settle_refs-IsUnique m (merge-IsUnique from_git from_user t u)) in
    lookup-given_only k (update s (runtime_metadata p))
      (update-IsUnique (runtime_metadata p) s (settle_path-IsUnique expanduser w um))
    ∙ get-runtime_metadata p k s
    ∙ rw
        (
          get-settle_path expanduser k w,
          get-settle_url k r,
          get-settle_url workspace_path r,
          get-settle_refs k m,
          get-settle_refs repository_url m,
          get-settle_refs workspace_path m,
          get-merge tag from_git from_user t ug uu,
          get-merge branch from_git from_user t ug uu,
          get-merge repository_url from_git from_user t ug uu,
          get-merge workspace_path from_git from_user t ug uu,
          get-merge k from_git from_user t ug uu,
        )
        refl

-- ===== src/Ci/Keys.antt =====
-- ddtrace/ext/ci.py: each step of `tags` keeps the keys of the dict apart.
use mathlib.Core.Option
use dd_trace_py.Base.{Bool, true, false, ◌&&◌, not, string_eq, if◌then◌else◌}
use dd_trace_py.Base.Dict.{contains, insert, erase, update}
use dd_trace_py.Base.Text.{Text}
use dd_trace_py.Base.Updates.{
  IsUnique, keep_items, insert-IsUnique, update-IsUnique, erase-IsUnique,
}
use dd_trace_py.Ci.{get, merge, settle_refs, settle_url, settle_path}
use dd_trace_py.Ci.Git.{Tags}
use dd_trace_py.Ci.Git.Names.{branch, tag, repository_url, workspace_path}
use dd_trace_py.Ci.Refs.{is_truthy, normalize_ref, filter_sensitive_info}

if-IsUnique : (b : Bool) (s t : Tags) → IsUnique s → IsUnique t → IsUnique (if b then s else t)
if-IsUnique true s t u v = u
if-IsUnique false s t u v = v

pub settle_refs-IsUnique : (t : Tags) → IsUnique t → IsUnique (settle_refs t)
unfolding settle_refs
settle_refs-IsUnique t u =
    let v = normalize_ref (get tag t) in
    let w = insert tag v t in
    let h = insert-IsUnique tag v t u in
    let b = if is_truthy (get tag w) && contains branch w then erase branch w else w in
    insert-IsUnique branch (normalize_ref (get branch b)) b
      (if-IsUnique (is_truthy (get tag w) && contains branch w) _ _ (erase-IsUnique branch w h) h)

pub settle_path-IsUnique :
    (expanduser : Text → Text) (t : Tags) → IsUnique t → IsUnique (settle_path expanduser t)
unfolding settle_path
settle_path-IsUnique expanduser t u =
    let b = is_truthy (get workspace_path t) in
    let v = Option.map expanduser (get workspace_path t) in
    if-IsUnique b _ _ (insert-IsUnique workspace_path v t u) u

pub settle_url-IsUnique : (t : Tags) → IsUnique t → IsUnique (settle_url t)
unfolding settle_url
settle_url-IsUnique t u =
    insert-IsUnique repository_url (filter_sensitive_info (get repository_url t)) t u

pub merge-IsUnique :
    (from_git from_user t : Tags) → IsUnique t → IsUnique (merge from_git from_user t)
unfolding merge
merge-IsUnique from_git from_user t u =
    update-IsUnique (keep_items (λ k v. is_truthy v) from_user)
      (update t (keep_items (λ k v. not (is_truthy (get k t))) from_git))
      (update-IsUnique (keep_items (λ k v. not (is_truthy (get k t))) from_git) t u)

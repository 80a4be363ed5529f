-- ===== src/Span/Lifecycle.antt =====
-- A span finishes once, and its tags stay consistent.
use dd_trace_py.Base.{
  ℕ, ◌≡◌, ◌≢◌, refl, Bool, true, false, Option, none, arith, String, string_eq, beq_refl, beq_ne,
  not,
}
use dd_trace_py.Base.Text.{Text}
use dd_trace_py.Base.Dict.{lookup-insert, lookup-erase}
use dd_trace_py.Context.{Number}
use dd_trace_py.Span.{
  Span, finished, finish, set_metric, get_metric, get_tag, set_str_tag, remove_tag, set_exc_info,
  remove_exc_info, error_msg, error_type, error_stack,
}

-- `finish` always leaves the span finished; its callbacks run exactly if it was not finished
-- before; and a second call, with whatever times, changes nothing and runs no callback.
pub finish_once :
    (time time' : Option ℕ) (now now' : ℕ) (s : Span)
    → let (s', ran) = finish time now s in
      (finished s' ≡ true) × (ran ≡ not (finished s)) × (finish time' now' s' ≡ (s', false))
unfolding finish
finish_once time time' now now' s = ground arith

-- A metric replaces a text tag of its key: afterwards the key is not in `meta`, and every other
-- key reads in both dicts what it read.
pub set_metric_exclusive :
    (key other : String) (v : Number) (s : Span)
    → key ≢ other
    → (get_tag key (set_metric key v s) ≡ none)
      × (get_tag other (set_metric key v s) ≡ get_tag other s)
      × (get_metric other (set_metric key v s) ≡ get_metric other s)
unfolding get_tag get_metric set_metric
set_metric_exclusive key other v s h = (
  simp (lookup-erase, beq_refl),
  simp (lookup-erase, beq_ne key other h),
  simp (lookup-insert, beq_ne key other h),
)

-- What `set_exc_info` marks, `_remove_exc_info` takes back: no error and no error tag is left, and
-- every other tag reads as before the exception.
pub remove_exc_info_undoes :
    (ignored : Bool) (message type_name stack : Text) (s : Span) (key : String)
    → error_msg ≢ key
    → error_type ≢ key
    → error_stack ≢ key
    → let s' = remove_exc_info (set_exc_info ignored message type_name stack s) in
      (s'.error ≡ 0)
      × (get_tag error_msg s' ≡ none)
      × (get_tag error_type s' ≡ none)
      × (get_tag error_stack s' ≡ none)
      × (get_tag key s' ≡ get_tag key s)
unfolding remove_exc_info set_exc_info get_tag set_str_tag remove_tag
remove_exc_info_undoes true message type_name stack s key h1 h2 h3 = (
  refl,
  simp lookup-erase,
  simp lookup-erase,
  simp lookup-erase,
  simp (lookup-erase, beq_ne error_msg key h1, beq_ne error_type key h2, beq_ne error_stack key h3),
)
remove_exc_info_undoes false message type_name stack s key h1 h2 h3 = (
  refl,
  simp lookup-erase,
  simp lookup-erase,
  simp lookup-erase,
  simp (
    lookup-erase,
    lookup-insert,
    beq_ne error_msg key h1,
    beq_ne error_type key h2,
    beq_ne error_stack key h3,
  ),
)

-- ===== src/Context.antt =====
-- ddtrace/context.py: the state that follows a trace. Contexts of one trace share their `_meta`
-- and `_metrics` dicts, so a context holds the address of a cell of shared tags, and the methods
-- pass the store of cells. The lock is not modelled: each method is one step.
pub mod Sharing
use dd_trace_py.Base.{
  ℕ, ◌+◌, ◌≡◌, ◌≢◌, arith, Bool, true, false, Option, none, some, String, ◌==◌, string_eq, nat_eq,
  if◌then◌else◌, List, [],
}
use dd_trace_py.Base.Int.{ℤ}
use dd_trace_py.Base.Text.{Text}
use dd_trace_py.Base.Dict.{Dict, lookup, insert, erase, update}

-- NumericType: an int, or a float as a fraction
pub data Number : Type 0 where
  int : ℤ → Number
  float : ℤ → ℕ → Number

-- the dicts `_meta` and `_metrics`
pub record Tags : Type 0 where
  pub meta : Dict String Text
  pub metrics : Dict String Number

abbrev pub Store : Type 0
Store = ℕ → Tags

pub record Context : Type 0 where
  pub trace_id : Option ℤ
  pub span_id : Option ℤ
  pub tags : ℕ

abbrev pub sampling_priority_key : String
sampling_priority_key = "_sampling_priority_v1"

abbrev pub origin_key : String
origin_key = "_dd.origin"

-- one cell of the store is written
unfoldable pub write : ℕ → Tags → Store → Store
write a t st b = if a == b then t else st b

pub write_self : (a : ℕ) (t : Tags) (st : Store) → write a t st a ≡ t
unfolding write
write_self a t st = ground arith

pub write_ne : (a b : ℕ) (t : Tags) (st : Store) → b ≢ a → write a t st b ≡ st b
unfolding write
write_ne a b t st h = ground arith

-- `sampling_priority`, read
unfoldable pub sampling_priority : Store → Context → Option Number
sampling_priority st c = lookup sampling_priority_key (st c.tags).metrics

-- what the setter of `sampling_priority` does to the dicts
unfoldable pub with_priority : Option Number → Tags → Tags
with_priority none t = record t { metrics = erase sampling_priority_key t.metrics }
with_priority (some v) t = record t { metrics = insert sampling_priority_key v t.metrics }

unfoldable pub set_sampling_priority : Context → Option Number → Store → Store
set_sampling_priority c v st = write c.tags (with_priority v (st c.tags)) st

unfoldable pub dd_origin : Store → Context → Option Text
dd_origin st c = lookup origin_key (st c.tags).meta

unfoldable pub with_origin : Option Text → Tags → Tags
with_origin none t = record t { meta = erase origin_key t.meta }
with_origin (some v) t = record t { meta = insert origin_key v t.meta }

unfoldable pub set_dd_origin : Context → Option Text → Store → Store
set_dd_origin c v st = write c.tags (with_origin v (st c.tags)) st

abbrev pub no_tags : Tags
no_tags = record { meta = []; metrics = [] }

-- `__attrs_post_init__`: the setters are called for the arguments that are given
abbrev pub given_origin : Option Text → Tags → Tags
given_origin none t = t
given_origin (some v) t = with_origin (some v) t

abbrev pub given_priority : Option Number → Tags → Tags
given_priority none t = t
given_priority (some v) t = with_priority (some v) t

-- `Context(trace_id, span_id, dd_origin, sampling_priority)` with fresh dicts at the address `a`
unfoldable pub new_context :
    ℕ → Option ℤ → Option ℤ → Option Text → Option Number → Store → Context × Store
new_context a trace_id span_id origin priority st = (
  record { trace_id = trace_id; span_id = span_id; tags = a },
  write a (given_priority priority (given_origin origin no_tags)) st,
)

-- `_with_span`: the ids of the span, the dicts of this context
unfoldable pub with_span : Context → ℤ → ℤ → Context
with_span c trace_id span_id = record {
  trace_id = some trace_id;
  span_id = some span_id;
  tags = c.tags;
}

-- `_update_tags`, on the dicts of a span
unfoldable pub update_tags : Store → Context → Tags → Tags
update_tags st c span = record {
  meta = update span.meta (st c.tags).meta;
  metrics = update span.metrics (st c.tags).metrics;
}

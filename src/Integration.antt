-- ===== src/Integration.antt =====
-- ddtrace/contrib/trace_utils.py: what an integration does beside its tags: the name of the service
-- and the context that comes with the headers of a request. The settings of an integration are a
-- dict; an inner `none` is a key with the value None.
pub mod Continuing
use mathlib.Core.Option
use dd_trace_py.Base.{
  ℕ, zero, suc, ◌+◌, Bool, true, false, ◌&&◌, ◌||◌, Option, none, some, if◌then◌else◌,
}
use dd_trace_py.Base.Int.{ℤ, pos, negsuc}
use dd_trace_py.Base.Dict.{Dict}
use dd_trace_py.Base.Text.{Text}
use dd_trace_py.Base.Updates.{or_else}
use dd_trace_py.Context.{Context, Store}
use dd_trace_py.Propagation.{extract}
use dd_trace_py.Provider.{a_context}
use dd_trace_py.Tracer.{Tracer}
use dd_trace_py.Ci.Refs.{is_truthy}

-- The keys that these functions read
pub record IntConfig : Type 0 where
  pub distributed_tracing_enabled : Option (Option Bool)
  pub distributed_tracing : Option (Option Bool)
  pub service : Option (Option Text)
  pub service_name : Option (Option Text)
  pub default_service : Option (Option Text)

-- `key in int_config and int_config.key is not None`
abbrev pub given {ℓ} : {A : Type ℓ} → Option (Option A) → Option A
given none = none
given (some v) = v

abbrev pub bool_or : Option Bool → Bool → Bool
bool_or none b = b
bool_or (some a) b = a

unfoldable pub is_distributed : IntConfig → Bool → Bool
is_distributed c default =
    bool_or (or_else (given c.distributed_tracing_enabled) (given c.distributed_tracing)) default

abbrev pub text_or : Option Text → Option Text → Option Text
text_or global rest = if is_truthy global then global else rest

-- `int_service`, with what `_get_service` of the global configuration answers; the outer `none` is
-- the AttributeError of a configuration that is None
unfoldable pub int_service :
    Option Text → Option IntConfig → Option Text → Option Text → Option (Option Text)
int_service pin_service none global default =
    if is_truthy pin_service then some pin_service else none
int_service pin_service (some c) global default =
    if is_truthy pin_service
    then some pin_service
    else some (
        or_else (or_else (given c.service) (given c.service_name))
          (text_or global (or_else (given c.default_service) default)))

unfoldable pub ext_service : Option Text → Option IntConfig → Option Text → Option Text
ext_service pin_service none default = if is_truthy pin_service then pin_service else default
ext_service pin_service (some c) default =
    if is_truthy pin_service
    then pin_service
    else or_else (or_else (given c.service) (given c.service_name))
        (or_else (given c.default_service) default)

-- Python's truth of an id
abbrev pub is_id : Option ℤ → Bool
is_id none = false
is_id (some (pos zero)) = false
is_id (some (pos (suc n))) = true
is_id (some (negsuc n)) = true

-- Whether the context of the headers is to be made active
abbrev pub is_wanted : Option Bool → Option IntConfig → Bool
is_wanted (some b) config = b
is_wanted none none = false
is_wanted none (some c) = is_distributed c false

-- `activate_distributed_headers`; headers that are None are read as none
unfoldable pub activate_distributed_headers :
    (Text → Bool) → Option Bool → Option IntConfig → Dict Text Text → Tracer → Tracer
activate_distributed_headers wsgi_first override config headers t =
    let (context, store) = extract wsgi_first t.cells headers t.store in
    let read = record t { store = store; cells = t.cells + 1 } in
    if is_wanted override config
    then (if is_id context.trace_id then record read { item = a_context context } else read)
    else t

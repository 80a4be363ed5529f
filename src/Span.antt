-- ===== src/Span.antt =====
-- ddtrace/span.py: a span's data, its clock and its numeric tags. Times are in nanoseconds. `name`,
-- `service` and the values of `meta` are texts, the keys of tags are strings. Ids are natural
-- numbers. Parents are addresses of spans.
pub mod Lifecycle
pub mod Tagging
use dd_trace_py.Base.{
  ℕ, zero, ◌+◌, ◌-◌, Bool, true, false, Option, none, some, List, [], ◌∷◌, String, string_eq, ◌==◌,
  nat_eq, if◌then◌else◌, is_some,
}
use dd_trace_py.Base.Int.{ℤ, pos, sub_ℕ, int_eq}
use dd_trace_py.Base.Text.{Text, codes}
use dd_trace_py.Base.Dict.{Dict, lookup, insert, erase}
use dd_trace_py.Context.{Context, Store, Number, int, float, Tags, no_tags, with_span, new_context}

pub record Span : Type 0 where
  pub name : Text
  pub service : Option Text
  pub resource : Text
  pub span_type : Option Text
  pub tags : Tags
  pub error : ℕ
  pub start_ns : ℕ
  pub duration_ns : Option ℤ
  pub trace_id : ℕ
  pub span_id : ℕ
  pub parent_id : Option ℕ
  pub sampled : Bool
  pub context : Option Context
  pub parent : Option ℕ
  pub local_root : Option ℕ

abbrev or_name : Option Text → Text → Text
or_name none name = name
or_name (some []) name = name
or_name (some (c ∷ r)) name = c ∷ r

-- `trace_id or rand64bits()`
abbrev or_random : Option ℕ → ℕ → ℕ
or_random none random = random
or_random (some zero) random = random
or_random (some n) random = n

abbrev context_with : Option Context → ℕ → ℕ → Option Context
context_with none trace_id span_id = none
context_with (some c) trace_id span_id = some (with_span c (pos trace_id) (pos span_id))

-- What a caller of `Span(...)` gives.
pub record Arguments : Type 0 where
  pub name : Text
  pub service : Option Text
  pub resource : Option Text
  pub span_type : Option Text
  pub trace_id : Option ℕ
  pub span_id : Option ℕ
  pub parent_id : Option ℕ
  pub start_ns : Option ℕ
  pub context : Option Context

abbrev or_now : Option ℕ → ℕ → ℕ
or_now none now = now
or_now (some t) now = t

-- `__init__` at the time `now`, with two draws of `rand64bits`
unfoldable pub init : Arguments → ℕ → ℕ → ℕ → Span
init args now random_trace random_span =
    let trace_id = or_random args.trace_id random_trace in
    let span_id = or_random args.span_id random_span in
    record {
      name = args.name;
      service = args.service;
      resource = or_name args.resource args.name;
      span_type = args.span_type;
      tags = no_tags;
      error = 0;
      start_ns = or_now args.start_ns now;
      duration_ns = none;
      trace_id = trace_id;
      span_id = span_id;
      parent_id = args.parent_id;
      sampled = true;
      context = context_with args.context trace_id span_id;
      parent = none;
      local_root = none;
    }

-- the property `finished`
abbrev pub finished : Span → Bool
finished s = is_some s.duration_ns

-- the setter of `finished`
unfoldable pub set_finished : Bool → ℕ → Span → Span
set_finished true now s =
    if finished s then s else record s { duration_ns = some (sub_ℕ now s.start_ns) }
set_finished false now s = record s { duration_ns = none }

-- `finish(finish_time)`: the span, and whether the callbacks of `on_finish` run
unfoldable pub finish : Option ℕ → ℕ → Span → Span × Bool
finish finish_time now s =
    let ft = or_now finish_time now in
    if finished s then (s, false) else (
      record s { duration_ns = some (sub_ℕ ft (if s.start_ns == 0 then ft else s.start_ns)) },
      true,
    )

abbrev pub measured_key : String
measured_key = "_dd.measured"

abbrev is_zero : Number → Bool
is_zero (int i) = i == pos 0
is_zero (float n d) = n == pos 0

-- `set_metric` of a finite number: the measured tag is 0 or 1, and a text tag of that key goes
unfoldable pub set_metric : String → Number → Span → Span
set_metric key value s =
    let v = if key == measured_key then int (pos (if is_zero value then 0 else 1)) else value in
    record s {
      tags = record { meta = erase key s.tags.meta; metrics = insert key v s.tags.metrics };
    }

unfoldable pub get_metric : String → Span → Option Number
get_metric key s = lookup key s.tags.metrics

unfoldable pub get_tag : String → Span → Option Text
get_tag key s = lookup key s.tags.meta

unfoldable pub remove_tag : String → Span → Span
remove_tag key s = record s { tags = record s.tags { meta = erase key s.tags.meta } }

-- `_set_str_tag` of a text
unfoldable pub set_str_tag : String → Text → Span → Span
set_str_tag key value s = record s { tags = record s.tags { meta = insert key value s.tags.meta } }

abbrev pub error_msg : String
error_msg = "error.msg"

abbrev pub error_type : String
error_type = "error.type"

abbrev pub error_stack : String
error_stack = "error.stack"

-- `set_exc_info` of an exception with its message, type and traceback as texts; `ignored` tells
-- that its type is one of `_ignored_exceptions`
unfoldable pub set_exc_info : Bool → Text → Text → Text → Span → Span
set_exc_info true message type_name stack s = s
set_exc_info false message type_name stack s =
    set_str_tag error_stack stack
      (set_str_tag error_type type_name (set_str_tag error_msg message (record s { error = 1 })))

-- `_remove_exc_info`
unfoldable pub remove_exc_info : Span → Span
remove_exc_info s =
    remove_tag error_stack (remove_tag error_type (remove_tag error_msg (record s { error = 0 })))

-- the property `context`: made on the first read, with its dicts at the address `a`
unfoldable pub get_context : ℕ → Span → Store → Context × Span × Store
get_context a s st = elim s.context [
  | some c ↦ (c, s, st)
  | none ↦
      let (c, st') = new_context a (some (pos s.trace_id)) (some (pos s.span_id)) none none st in
      (c, record s { context = some c }, st')
]

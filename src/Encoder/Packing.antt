-- ===== src/Encoder/Packing.antt =====
-- ddtrace/internal/_encoding.pyx: the bytes of a span. The msgpack packer (pack.h, a copy of the C
-- library's) is a parameter: what each of its functions writes. An exception or a code other than
-- 0 ends the packing after some bytes were written already.
use dd_trace_py.Base.{
  ℕ, ◌+◌, ◌-◌, ◌^◌, Bool, true, false, ◌||◌, Option, none, some, List, [], ◌∷◌, ◌++◌, String,
  if◌then◌else◌, length, leb, ltb, is_some,
}
use dd_trace_py.Base.Int.{ℤ, pos, negsuc}
use dd_trace_py.Base.Text.{Text, codes}
use dd_trace_py.Base.Dict.{Dict}
use dd_trace_py.Context.{Store, Number, int, float, dd_origin}
use dd_trace_py.Span.{Span}

-- the functions `msgpack_pack_…`, and `PyUnicode_AsUTF8` up to the first byte 0
pub record Packer : Type 0 where
  pub nil : List ℕ
  pub signed : ℤ → List ℕ
  pub unsigned : ℕ → List ℕ
  pub double : ℤ → ℕ → List ℕ
  pub array : ℕ → List ℕ
  pub map : ℕ → List ℕ
  pub raw : ℕ → List ℕ
  pub unicode : Text → ℕ → Option (List ℕ)
  pub utf8 : Text → List ℕ

abbrev pub item_limit : ℕ
item_limit = 2 ^ 32 - 1

-- What was written, and whether the packing went on to its end.
abbrev pub Written : Type 0
Written = List ℕ × Bool

infixr 5 ◌then_write◌
abbrev pub ◌then_write◌ : Written → Written → Written
(a, true) then_write (b, done) = (a ++ b, done)
(a, false) then_write w = (a, false)

abbrev pub all_of : List ℕ → Written
all_of bytes = (bytes, true)

abbrev pub some_of : Option (List ℕ) → Written
some_of none = ([], false)
some_of (some bytes) = (bytes, true)

module _ (p : Packer) where
  -- `pack_bytes`
  abbrev pub pack_bytes : List ℕ → Written
  pack_bytes bytes = all_of (p.raw (length bytes) ++ bytes)

  -- `pack_number`: an int beyond 64 bits is an OverflowError
  unfoldable pub pack_number : Number → Written
  pack_number (int (pos n)) =
      if leb n 0
      then all_of (p.signed (pos n))
      else if ltb n (2 ^ 64)
      then all_of (p.unsigned n)
      else ([], false)
  pack_number (int (negsuc n)) =
      if ltb n (2 ^ 63) then all_of (p.signed (negsuc n)) else ([], false)
  pack_number (float n d) = all_of (p.double n d)

  abbrev pub pack_int : Option ℤ → Written
  pack_int none = all_of p.nil
  pack_int (some i) = pack_number (int i)

  abbrev pub pack_id : Option ℕ → Written
  pack_id none = all_of p.nil
  pack_id (some n) = pack_number (int (pos n))

  -- `pack_text` of None or a str
  unfoldable pub pack_text : Option Text → Written
  pack_text none = all_of p.nil
  pack_text (some t) = some_of (p.unicode t item_limit)

  abbrev pub pack_texts : Dict String Text → Written
  pack_texts [] = all_of []
  pack_texts ((k, v) ∷ d) =
      pack_text (some (codes k)) then_write pack_text (some v) then_write pack_texts d

  abbrev pub pack_numbers : Dict String Number → Written
  pack_numbers [] = all_of []
  pack_numbers ((k, v) ∷ d) =
      pack_text (some (codes k)) then_write pack_number v then_write pack_numbers d

  abbrev pub pack_origin : Option Text → Written
  pack_origin none = all_of []
  pack_origin (some o) = pack_bytes (codes "_dd.origin") then_write pack_bytes (p.utf8 o)

  abbrev pub one_if : Bool → ℕ
  one_if true = 1
  one_if false = 0

  -- the length prefix of a map: a ValueError for more entries than the limit
  abbrev pub pack_map : ℕ → Written
  pack_map n = if ltb item_limit n then ([], false) else all_of (p.map n)

  -- `_pack_meta`
  unfoldable pub pack_meta : Dict String Text → Option Text → Written
  pack_meta meta origin =
      pack_map (length meta + one_if (is_some origin))
      then_write pack_texts meta
      then_write pack_origin origin

  -- `_pack_metrics`
  unfoldable pub pack_metrics : Dict String Number → Written
  pack_metrics metrics = pack_map (length metrics) then_write pack_numbers metrics

  abbrev pub field : String → Written → Written
  field key value = pack_bytes (codes key) then_write value

  abbrev pub field_if : Bool → String → Written → Written
  field_if false key value = all_of []
  field_if true key value = field key value

  -- `pack_span`
  unfoldable pub pack_span : Span → Option Text → Written
  pack_span s origin =
      let has_type = is_some s.span_type in
      let has_meta = ltb 0 (length s.tags.meta) || is_some origin in
      let has_metrics = ltb 0 (length s.tags.metrics) in
      all_of (p.map (9 + one_if has_type + one_if has_meta + one_if has_metrics))
      then_write field "trace_id" (pack_number (int (pos s.trace_id)))
      then_write field "parent_id" (pack_id s.parent_id)
      then_write field "span_id" (pack_number (int (pos s.span_id)))
      then_write field "service" (pack_text s.service)
      then_write field "resource" (pack_text (some s.resource))
      then_write field "name" (pack_text (some s.name))
      then_write field "error" (all_of (p.signed (pos (if leb s.error 0 then 0 else 1))))
      then_write field "start" (pack_number (int (pos s.start_ns)))
      then_write field "duration" (pack_int s.duration_ns)
      then_write field_if has_type "type" (pack_text s.span_type)
      then_write field_if has_meta "meta" (pack_meta s.tags.meta origin)
      then_write field_if has_metrics "metrics" (pack_metrics s.tags.metrics)

  abbrev pub pack_spans : List Span → Option Text → Written
  pack_spans [] origin = all_of []
  pack_spans (s ∷ spans) origin = pack_span s origin then_write pack_spans spans origin

  -- `trace[0].context.dd_origin`; a context that is made for this read has none
  abbrev pub origin_of : Store → List Span → Option Text
  origin_of st [] = none
  origin_of st (s ∷ spans) = elim s.context [ none ↦ none | some c ↦ dd_origin st c ]

  -- `_pack_trace`
  unfoldable pub pack_trace : Store → List Span → Written
  pack_trace st trace =
      if ltb item_limit (length trace)
      then ([], false)
      else (all_of (p.array (length trace)) then_write pack_spans trace (origin_of st trace))

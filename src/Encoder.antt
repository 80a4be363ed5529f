-- ===== src/Encoder.antt =====
-- ddtrace/internal/_encoding.pyx: MsgpackEncoder, a buffer of packed traces with room for the
-- prefix that tells their number. `pk.buf` is a memory and `pk.length` the write position; memory
-- below is left as the program leaves it, so a failed `put` leaves bytes beyond the position. The
-- lock makes each method one step. `_count` stays below 2 ^ 31, where it is an int.
pub mod Packing
pub mod Buffer
pub mod Frames
pub mod Flushed
pub mod Bounds
use dd_trace_py.Base.{
  ℕ, ◌+◌, ◌-◌, ◌*◌, ◌^◌, ◌≤◌, ◌≡◌, Bool, true, false, Option, none, some, List, [], ◌∷◌, ◌++◌,
  if◌then◌else◌, length, leb, ltb, nat_beq,
}
use dd_trace_py.Context.{Store}
use dd_trace_py.Span.{Span}
use dd_trace_py.Encoder.Packing.{Packer, Written, pack_trace}
use dd_trace_py.Encoder.Buffer.{Memory, write, read}

-- MSGPACK_ARRAY_LENGTH_PREFIX_SIZE
abbrev pub room : ℕ
room = 5

-- `array_prefix_size`; `2<<16` is 2 * 2 ^ 16
unfoldable pub array_prefix_size : ℕ → ℕ
array_prefix_size l = if ltb l 16 then 1 else if ltb l (2 * 2 ^ 16) then 3 else room

pub record Encoder : Type 0 where
  pub memory : Memory
  pub position : ℕ
  pub count : ℕ
  pub max_size : ℕ
  pub max_item_size : ℕ

-- `__cinit__`; the memory is what the allocation gives
unfoldable pub init : Memory → ℕ → ℕ → Encoder
init memory max_size max_item_size = record {
  memory = memory;
  position = room;
  count = 0;
  max_size = max_size;
  max_item_size = if ltb max_item_size max_size then max_item_size else max_size;
}

-- the property `size`
unfoldable pub size : Encoder → ℕ
size e = e.position + array_prefix_size e.count - room

-- How `put` ends: it returns, or raises BufferItemTooLarge, BufferFull or what the packing raises.
pub data Put : Type 0 where
  accepted : Put
  item_too_large : ℕ → Put
  buffer_full : ℕ → Put
  not_packed : Put

-- the checks after the bytes were written, and the rollback to the position before
abbrev settle_put : ℕ → Encoder → Bool → Encoder × Put
settle_put before e false = (record e { position = before }, not_packed)
settle_put before e true =
    let grown = e.position - before in
    if ltb e.max_item_size grown
    then (record e { position = before }, item_too_large grown)
    else if ltb e.max_size (size e)
    then (record e { position = before }, buffer_full grown)
    else (record e { count = e.count + 1 }, accepted)

-- what `_pack_trace` does to the buffer
abbrev pub append : List ℕ → Encoder → Encoder
append bytes e = record e {
  memory = write e.position bytes e.memory;
  position = e.position + length bytes;
}

-- `put` of a trace that is packed to the given bytes
unfoldable pub put_written : Written → Encoder → Encoder × Put
put_written (bytes, done) e = settle_put e.position (append bytes e) done

module _ (p : Packer) where
  -- `put`
  unfoldable pub put : Store → List Span → Encoder → Encoder × Put
  put st trace e = put_written (pack_trace p st trace) e

  -- `_update_array_len`: the prefix is written before the traces, as far back as its size is
  -- reckoned, and the position is what it was
  unfoldable pub update_array_len : Encoder → Encoder × ℕ
  update_array_len e =
      let offset = room - array_prefix_size e.count in
      (record e { memory = write offset (p.array e.count) e.memory }, offset)

  -- `get_bytes`
  unfoldable pub get_bytes : Encoder → Encoder × List ℕ
  get_bytes e =
      let (e', offset) = update_array_len e in (e', read offset (e'.position - offset) e'.memory)

  -- `flush`, with `_reset_buffer`
  unfoldable pub flush : Encoder → Encoder × List ℕ
  flush e = let (e', bytes) = get_bytes e in (record e' { count = 0; position = room }, bytes)

  -- `encode`
  unfoldable pub encode : Encoder → Encoder × Option (List ℕ)
  encode e = if nat_beq e.count 0 then (e, none) else let (e', bytes) = flush e in (e', some bytes)

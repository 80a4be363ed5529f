-- ===== src/Encoder/Flushed.antt =====
-- ddtrace/internal/_encoding.pyx: the bytes that are sent, against the list of the traces.
use dd_trace_py.Base.{
  ℕ, zero, suc, ◌+◌, ◌-◌, ◌*◌, ◌^◌, ◌≤◌, ◌<◌, ◌≡◌, refl, ap, ◌∙◌, arith, some, List, [], ◌∷◌, ◌++◌,
  if◌then◌else◌, length, length-append, All, ltb, nat_beq, Bool-cases, inl, inr,
}
use dd_trace_py.Encoder.Packing.{Packer}
use dd_trace_py.Encoder.Buffer.{Memory, write, read, read-write, read-write_above, read-add}
use dd_trace_py.Encoder.{
  Encoder, room, array_prefix_size, update_array_len, get_bytes, flush, encode,
}
use dd_trace_py.Encoder.Frames.{Holds, concat}

abbrev pub drop : ℕ → List ℕ → List ℕ
drop zero l = l
drop (suc n) [] = []
drop (suc n) (x ∷ l) = drop n l

read-drop : (k p n : ℕ) (m : ℕ → ℕ) → k ≤ n → read (p + k) (n - k) m ≡ drop k (read p n m)
unfolding read
read-drop zero p n m h = rw (add_zero p, sub_zero n) refl
  where
    add_zero : (p : ℕ) → p + 0 ≡ p
    add_zero p = omega arith

    sub_zero : (n : ℕ) → n - 0 ≡ n
    sub_zero n = omega arith
read-drop (suc k) p zero m h = absurd (omega (arith, h))
read-drop (suc k) p (suc n) m h =
    let e : p + suc k ≡ p + 1 + k = omega arith in
    let f : suc n - suc k ≡ n - k = omega arith in
    rw (e, f) (read-drop k (p + 1) n m (omega (arith, h)))

placed :
    (o k n position : ℕ) (prefix : List ℕ) (m : Memory)
    → o + length prefix ≡ room + k
    → k ≤ n
    → position ≡ room + n
    → read o (position - o) (write o prefix m) ≡ prefix ++ drop k (read room n m)
placed o k n position prefix m start le end =
    let e : position - o ≡ length prefix + (n - k) = omega (arith, start, le, end) in
    rw e (
      read-add o (length prefix) (n - k) (write o prefix m)
      ∙ rw
          (
            read-write o prefix m,
            read-write_above (o + length prefix) (n - k) o prefix m (omega arith),
            start,
            read-drop k room n m le,
          )
          refl)

-- The prefix lies over the first `k` bytes of the traces, if it is that much longer than reckoned.
prefixed :
    (p : Packer) (e : Encoder) (ts : List (List ℕ)) (k : ℕ)
    → Holds e ts
    → k ≤ length (concat ts)
    → room - array_prefix_size e.count + length (p.array e.count) ≡ room + k
    → (get_bytes p e).1 ≡ p.array e.count ++ drop k (concat ts)
unfolding get_bytes update_array_len
prefixed p e ts k h le start =
    placed (room - array_prefix_size e.count) k (length (concat ts)) e.position (p.array e.count)
      e.memory start le h.position
    ∙ rw h.bytes refl

-- The msgpack format: what the prefix of an array of `n` elements takes.
abbrev pub prefix_size : ℕ → ℕ
prefix_size n = if ltb n 16 then 1 else if ltb n (2 ^ 16) then 3 else 5

length-concat : (ts : List (List ℕ)) → All (λ t. 0 < length t) ts → length ts ≤ length (concat ts)
length-concat [] h = omega arith
length-concat (t ∷ ts) h = omega (arith, h.0, length-concat ts h.1, length-append {0} t (concat ts))

encode-some :
    (p : Packer) (e : Encoder) (ts : List (List ℕ))
    → Holds e ts
    → 0 < length ts
    → (encode p e).1 ≡ some (get_bytes p e).1
unfolding encode flush
encode-some p e ts h more = ground (arith, h.counted)

reckoned : (n : ℕ) → n < 2 ^ 16 → room - array_prefix_size n + prefix_size n ≡ room
unfolding array_prefix_size
reckoned n h = ground (arith, h)

reckoned_short :
    (n : ℕ) → 2 ^ 16 ≤ n → n < 2 * 2 ^ 16 → room - array_prefix_size n + prefix_size n ≡ room + 2
unfolding array_prefix_size
reckoned_short n h k = ground (arith, h, k)

encode-Holds :
    (p : Packer) (e : Encoder) (ts : List (List ℕ))
    → Holds e ts
    → 0 < length ts
    → Holds (encode p e).0 []
unfolding encode flush read
encode-Holds p e ts h more = elim (Bool-cases (nat_beq e.count 0)) [
  | inl none_there ↦ absurd (ground (arith, h.counted))
  | inr some_there ↦ rw some_there (record { position = omega arith; counted = refl; bytes = refl })
]

-- What is sent for at least one and fewer than 65,536 traces is the msgpack array of the traces:
-- the prefix for their number and then the bytes of each, in the order in which they were put. The
-- encoder is empty afterwards. The packer's array prefix has the size that the format gives it.
pub encode_lem :
    (p : Packer) (e : Encoder) (ts : List (List ℕ))
    → ((n : ℕ) → length (p.array n) ≡ prefix_size n)
    → Holds e ts
    → 0 < length ts
    → length ts < 2 ^ 16
    → ((encode p e).1 ≡ some (p.array (length ts) ++ concat ts)) × Holds (encode p e).0 []
encode_lem p e ts sized h more few = (
  encode-some p e ts h more ∙ ap some (prefixed p e ts 0 h (omega arith) start ∙ rw h.counted refl),
  encode-Holds p e ts h more,
)
  where
    start : room - array_prefix_size e.count + length (p.array e.count) ≡ room + 0
    start = omega (arith, sized e.count, reckoned e.count (omega (arith, h.counted, few)))

-- From 65,536 to 131,071 traces the size of the prefix is reckoned 2 bytes too small, and what is
-- sent is no array of the traces: the prefix has taken the place of the first two bytes. No trace is
-- empty, and the packer's array prefix has the size that the format gives it.
pub encode_overwrites :
    (p : Packer) (e : Encoder) (ts : List (List ℕ))
    → ((n : ℕ) → length (p.array n) ≡ prefix_size n)
    → Holds e ts
    → All (λ t. 0 < length t) ts
    → 2 ^ 16 ≤ length ts
    → length ts < 2 * 2 ^ 16
    → (encode p e).1 ≡ some (p.array (length ts) ++ drop 2 (concat ts))
encode_overwrites p e ts sized h full many few =
    encode-some p e ts h (omega arith)
    ∙ ap some (prefixed p e ts 2 h (omega (arith, length-concat ts full)) start ∙ rw h.counted refl)
  where
    start : room - array_prefix_size e.count + length (p.array e.count) ≡ room + 2
    start = omega (
      arith,
      sized e.count,
      reckoned_short e.count (omega (arith, h.counted, many)) (omega (arith, h.counted, few)),
    )

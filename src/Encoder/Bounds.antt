-- ===== src/Encoder/Bounds.antt =====
-- ddtrace/internal/_encoding.pyx: how large the buffer grows.
use dd_trace_py.Base.{
  ℕ, ◌+◌, ◌-◌, ◌≤◌, ◌≡◌, refl, arith, true, false, List, [], ◌∷◌, length, ltb, Bool-cases, inl, inr,
}
use dd_trace_py.Encoder.Packing.{Written}
use dd_trace_py.Encoder.{Encoder, room, array_prefix_size, init, size, put_written}

-- the traces are put, each as what its packing wrote; errors do not end the sequence
abbrev pub put_all : List Written → Encoder → Encoder
put_all [] e = e
put_all (w ∷ ws) e = put_all ws (put_written w e).0

-- Within 2 bytes of the limit, and the limit as it was set.
pub record IsWithin (limit : ℕ) (e : Encoder) : Type 0 where
  pub limited : e.max_size ≡ limit
  pub item : e.max_item_size ≤ limit
  pub within : size e ≤ limit + 2

-- the prefix grows by 2 at 16 and at 131,072 traces
prefix-step : (n : ℕ) → array_prefix_size (n + 1) ≤ array_prefix_size n + 2
unfolding array_prefix_size
prefix-step n = ground arith

put_written-IsWithin :
    (limit : ℕ) (w : Written) (e : Encoder) → IsWithin limit e → IsWithin limit (put_written w e).0
unfolding put_written size
put_written-IsWithin limit (t, false) e h = record {
  limited = h.limited;
  item = h.item;
  within = h.within;
}
put_written-IsWithin limit (t, true) e h =
    elim (Bool-cases (ltb e.max_item_size (e.position + length t - e.position))) [
      | inl f ↦ rw f (record { limited = h.limited; item = h.item; within = h.within })
      | inr f ↦
          elim (Bool-cases
            (ltb e.max_size (e.position + length t + array_prefix_size e.count - room))) [
              | inl g ↦ rw (f, g) (record { limited = h.limited; item = h.item; within = h.within })
              | inr g ↦
                  rw (f, g)
                    (record {
                      limited = h.limited;
                      item = h.item;
                      within = ground (arith, g, h.limited, prefix-step e.count);
                    })
            ]
    ]

put_all-IsWithin :
    (limit : ℕ) (ws : List Written) (e : Encoder) → IsWithin limit e → IsWithin limit (put_all ws e)
put_all-IsWithin limit [] e h = h
put_all-IsWithin limit (w ∷ ws) e h =
    put_all-IsWithin limit ws (put_written w e).0 (put_written-IsWithin limit w e h)

init-IsWithin :
    (memory : ℕ → ℕ) (max_size max_item_size : ℕ)
    → IsWithin max_size (init memory max_size max_item_size)
unfolding init size array_prefix_size
init-IsWithin memory max_size max_item_size = record {
  limited = refl;
  item = ground arith;
  within = ground arith;
}

-- Whatever is put, and whatever is refused, what would be sent is at most 2 bytes more than
-- `max_size`: those by which the prefix grows when the last trace is counted.
pub put_all-le :
    (memory : ℕ → ℕ) (max_size max_item_size : ℕ) (ws : List Written)
    → size (put_all ws (init memory max_size max_item_size)) ≤ max_size + 2
put_all-le memory max_size max_item_size ws =
    (put_all-IsWithin max_size ws (init memory max_size max_item_size)
      (init-IsWithin memory max_size max_item_size)).within

-- ===== src/Encoder/Frames.antt =====
-- ddtrace/internal/_encoding.pyx: the buffer against the list of the traces in it.
use dd_trace_py.Base.{
  ℕ, zero, suc, ◌+◌, ◌-◌, ◌≡◌, refl, sym, ap, ◌∙◌, arith, true, false, List, [], ◌∷◌, ◌++◌, length,
  length-append, append_assoc, append-nil, ltb, Bool-cases, inl, inr,
}
use dd_trace_py.Encoder.Packing.{Written}
use dd_trace_py.Encoder.Buffer.{Memory, write, read, read-write, read-write_below, read-add}
use dd_trace_py.Encoder.{
  Encoder, Put, accepted, item_too_large, buffer_full, not_packed, room, init, size, append,
  put_written,
}

abbrev pub concat : List (List ℕ) → List ℕ
concat [] = []
concat (t ∷ ts) = t ++ concat ts

length-read : (p n : ℕ) (m : Memory) → length (read p n m) ≡ n
unfolding read
length-read p zero m = refl
length-read p (suc n) m = ap suc (length-read (p + 1) n m)

concat-append : (ts : List (List ℕ)) (t : List ℕ) → concat (ts ++ (t ∷ [])) ≡ concat ts ++ t
concat-append [] t = append-nil t
concat-append (u ∷ ts) t =
    ap (λ (l : List ℕ). u ++ l) (concat-append ts t) ∙ sym (append_assoc u (concat ts) t)

-- The encoder holds the traces `ts`, each as its bytes.
pub record Holds (e : Encoder) (ts : List (List ℕ)) : Type 0 where
  pub position : e.position ≡ room + length (concat ts)
  pub counted : e.count ≡ length ts
  pub bytes : read room (length (concat ts)) e.memory ≡ concat ts

pub init-Holds :
    (m : Memory) (max_size max_item_size : ℕ) → Holds (init m max_size max_item_size) []
unfolding init read
init-Holds m max_size max_item_size = record {
  position = omega arith;
  counted = refl;
  bytes = refl;
}

-- Bytes written at the end leave those before them.
appended :
    (e : Encoder) (ts : List (List ℕ)) (t : List ℕ)
    → Holds e ts
    → read room (length (concat ts)) (append t e).memory ≡ concat ts
appended e ts t h =
    read-write_below room (length (concat ts)) e.position t e.memory (omega (arith, h.position))
    ∙ h.bytes

appended_all :
    (e : Encoder) (ts : List (List ℕ)) (t : List ℕ)
    → Holds e ts
    → read room (length (concat (ts ++ (t ∷ [])))) (append t e).memory ≡ concat (ts ++ (t ∷ []))
appended_all e ts t h =
    ap (λ n. read room n (append t e).memory)
      (ap length (concat-append ts t) ∙ length-append (concat ts) t)
    ∙ read-add room (length (concat ts)) (length t) (append t e).memory
    ∙ joined
    ∙ sym (concat-append ts t)
  where
    joined :
        read room (length (concat ts)) (append t e).memory
          ++ read (room + length (concat ts)) (length t) (append t e).memory
        ≡ concat ts ++ t
    joined = rw (appended e ts t h) (
        ap (λ (l : List ℕ). concat ts ++ l)
          (rw (sym h.position) (read-write e.position t e.memory)))

-- What `put` promises: an accepted trace is added at the end; after any error the encoder holds
-- what it held.
pub after_put : List (List ℕ) → List ℕ → Put → List (List ℕ)
after_put ts t accepted = ts ++ (t ∷ [])
after_put ts t (item_too_large n) = ts
after_put ts t (buffer_full n) = ts
after_put ts t not_packed = ts

rolled_back :
    (e : Encoder) (ts : List (List ℕ)) (t : List ℕ)
    → Holds e ts
    → Holds (record e { memory = write e.position t e.memory }) ts
rolled_back e ts t h = record {
  position = h.position;
  counted = h.counted;
  bytes = appended e ts t h;
}

added :
    (e : Encoder) (ts : List (List ℕ)) (t : List ℕ)
    → Holds e ts
    → Holds (record (append t e) { count = e.count + 1 }) (ts ++ (t ∷ []))
added e ts t h = record {
  position =
      omega (arith, h.position, ap length (concat-append ts t), length-append {0} (concat ts) t);
  counted = omega (arith, h.counted, length-append {0} ts (t ∷ []));
  bytes = appended_all e ts t h;
}

-- `put` never loses a trace that is in the buffer: an accepted trace is added behind the others,
-- and after any error, however much of the trace was written before it, the buffer holds the same
-- traces as before.
pub put_written-Holds :
    (w : Written) (e : Encoder) (ts : List (List ℕ))
    → Holds e ts
    → Holds (put_written w e).0 (after_put ts w.0 (put_written w e).1)
unfolding put_written after_put
put_written-Holds (t, false) e ts h = rolled_back e ts t h
put_written-Holds (t, true) e ts h =
    elim (Bool-cases (ltb e.max_item_size (e.position + length t - e.position))) [
      | inl f ↦ rw f (rolled_back e ts t h)
      | inr f ↦ elim (Bool-cases (ltb e.max_size (size (append t e)))) [
        | inl g ↦ rw (f, g) (rolled_back e ts t h)
        | inr g ↦ rw (f, g) (added e ts t h)
      ]
    ]

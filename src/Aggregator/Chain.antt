-- ===== src/Aggregator/Chain.antt =====
-- What the chain of processors lets through.
use dd_trace_py.Base.{
  ℕ, ◌≡◌, ◌∙◌, ◌⊎◌, inl, inr, refl, Bool, false, Option, none, some, List, [], ◌∷◌, if◌then◌else◌,
  any, Bool-cases, Option-cases, nat_beq, nat_beq_iff, ap, sym,
}
use dd_trace_py.Context.{Store}
use dd_trace_py.Aggregator.{
  Spans, Processor, run_processors, sampling, trace_tags, tracer_processors,
}

-- Some span of the trace is marked to be kept.
abbrev pub is_sampled : Spans → List ℕ → Bool
is_sampled h = any (λ x. (h x).sampled)

-- The tags of a trace change no mark, and leave the trace whole.
trace_tags-whole : (st : Store) (l : List ℕ) (h : Spans) → (trace_tags st l h).0 ≡ some (some l)
unfolding trace_tags
trace_tags-whole st [] h = refl
trace_tags-whole st (x ∷ l) h = elim (Option-cases (h x).context) [
  | inl e ↦ rw (e, trace_tags) refl
  | inr (c, e) ↦ rw (e, trace_tags) refl
]

trace_tags-sampled :
    (st : Store) (l : List ℕ) (h : Spans) (y : ℕ)
    → ((trace_tags st l h).1 y).sampled ≡ (h y).sampled
unfolding trace_tags
trace_tags-sampled st [] h y = refl
trace_tags-sampled st (x ∷ l) h y = elim (Option-cases (h x).context) [
  | inl e ↦ rw (e, trace_tags) refl
  | inr (c, e) ↦ elim (Bool-cases (nat_beq y x)) [
    | inl q ↦ rw (e, trace_tags, q) (ap (λ z. (h z).sampled) (sym ((nat_beq_iff y x).0 q)))
    | inr q ↦ rw (e, trace_tags, q) refl
  ]
]

is_sampled-cong :
    (h g : Spans)
    → ((y : ℕ) → (h y).sampled ≡ (g y).sampled)
    → (l : List ℕ) → is_sampled h l ≡ is_sampled g l
is_sampled-cong h g same [] = refl
is_sampled-cong h g same (x ∷ l) = rw (same x, is_sampled-cong h g same l) refl

one_step :
    (p : Processor) (ps : List Processor) (l : List ℕ) (h : Spans) (o : Option (List ℕ))
    → (p l h).0 ≡ some o
    → run_processors (p ∷ ps) (some l) h ≡ run_processors ps o (p l h).1
unfolding run_processors
one_step p ps l h o e = rw (e, run_processors) refl

-- The tags are set and the mark is read.
first_two :
    (st : Store) (filters : List Processor) (l : List ℕ) (h : Spans)
    → run_processors (tracer_processors st filters) (some l) h
      ≡ run_processors filters (if is_sampled h l then some l else none) (trace_tags st l h).1
unfolding tracer_processors sampling
first_two st filters l h =
    one_step (trace_tags st) (sampling ∷ filters) l h (some l) (trace_tags-whole st l h)
    ∙ one_step sampling filters l (trace_tags st l h).1 (if is_sampled h l then some l else none)
        (rw (is_sampled-cong (trace_tags st l h).1 h (trace_tags-sampled st l h) l) refl)

-- Without filters a trace is written as a whole, if one of its spans is marked as sampled, and
-- otherwise None is written. With filters, whatever they do, no span of a trace without such a mark
-- reaches the writer: it is given None or not called.
pub tracer_processors-sampled :
    (st : Store) (filters : List Processor) (l unsampled : List ℕ) (h : Spans)
    → is_sampled h unsampled ≡ false
    → let rejected = (run_processors (tracer_processors st filters) (some unsampled) h).0 in
      ((run_processors (tracer_processors st []) (some l) h).0
        ≡ some (if is_sampled h l then some l else none))
      × ((rejected ≡ none) ⊎ (rejected ≡ some none))
unfolding run_processors
tracer_processors-sampled st filters l unsampled h e =
    (rw (first_two st [] l h) refl, rw (first_two st filters unsampled h, e) (stays_none filters _))
  where
    stays_none :
        (ps : List Processor) (g : Spans)
        → ((run_processors ps none g).0 ≡ none) ⊎ ((run_processors ps none g).0 ≡ some none)
    stays_none [] g = inr refl
    stays_none (p ∷ ps) g = inl refl

-- ===== src/Recorder/Queues.antt =====
-- ddtrace/profiling/recorder.py: the queues of a recorder over sequences of pushes and resets.
use mathlib.Core.Path.{subst}
use dd_trace_py.Base.{
  ℕ, ◌≡◌, refl, sym, ap, ◌∙◌, arith, Bool, true, false, List, [], ◌∷◌, ◌++◌, if◌then◌else◌, length,
  length-append, ltb, nat_eq, ◌==◌, Bool-cases, inl, inr,
}
use dd_trace_py.Base.Dict.{lookup, lookup-insert}
use dd_trace_py.Recorder.{Recorder, limit, last_of, queue, reset, push_events, extend, or_empty}

-- What an older limit took away, a later one would have.
last_of-append :
    {A : Type 0} (n : ℕ) (q l : List A) → last_of n (last_of n q ++ l) ≡ last_of n (q ++ l)
last_of-append n [] l = refl
last_of-append n (x ∷ q) l = elim (Bool-cases (ltb n (length (x ∷ q)))) [
  | inr e ↦ rw e refl
  | inl e ↦
      let f : ltb n (length (x ∷ (q ++ l))) ≡ true = ground (arith, e, length-append {0} q l) in
      rw (e, f) (last_of-append n q l)
]

not_taken : {A : Type 0} (b : Bool) (r s : A) → b ≡ false → (if b then r else s) ≡ s
not_taken true r s h = absurd (ground (arith, h))
not_taken false r s h = refl

-- What happens to a recorder of this process.
pub data Use (A : Type 0) : Type 0 where
  pushes : List A → Use A
  resets : Use A

module _ {A : Type 0} (kind : A → ℕ) where
  abbrev pub use_once : Use A → Recorder A → Recorder A
  use_once (pushes l) r = push_events kind l r
  use_once resets r = (reset r).1

  abbrev pub use_all : List (Use A) → Recorder A → Recorder A
  use_all [] r = r
  use_all (u ∷ us) r = use_all us (use_once u r)

  -- what was pushed for a kind after `l` since the last reset; a batch counts for the kind of its
  -- first event
  abbrev after_push : ℕ → List A → List A → List A
  after_push k l [] = l
  after_push k l (x ∷ events) = if kind x == k then l ++ (x ∷ events) else l

  abbrev pub pushed : ℕ → List (Use A) → List A → List A
  pushed k [] l = l
  pushed k (pushes events ∷ us) l = pushed k us (after_push k l events)
  pushed k (resets ∷ us) l = pushed k us []

  -- The queue of a kind shows what was pushed.
  pub record Shows (k n : ℕ) (r : Recorder A) (l : List A) : Type 0 where
    pub working : r.forked ≡ false
    pub limited : limit k r ≡ n
    pub held : queue k r ≡ last_of n l

  push_events-Shows :
      (k n : ℕ) (events : List A) (r : Recorder A) (l : List A)
      → Shows k n r l
      → Shows k n (push_events kind events r) (after_push k l events)
  unfolding push_events
  push_events-Shows k n [] r l h = h
  push_events-Shows k n (x ∷ events) r l h =
      subst (λ z. Shows k n z (after_push k l (x ∷ events)))
        (sym (not_taken r.forked _ _ h.working)) extended
    where
      joined :
          kind x ≡ k
          → last_of (limit (kind x) r) (queue (kind x) r ++ (x ∷ events))
            ≡ last_of n (l ++ (x ∷ events))
      joined same =
          ap (λ z. last_of (limit z r) (queue z r ++ (x ∷ events))) same
          ∙ rw (h.limited, h.held) (last_of-append n l (x ∷ events))

      extended : Shows k n (extend kind x events r) (after_push k l (x ∷ events))
      extended = elim (Bool-cases (kind x == k)) [
        | inr e ↦ rw e (record {
          working = h.working;
          limited = h.limited;
          held = rw (lookup-insert, e) h.held;
        })
        | inl e ↦ rw e (record {
          working = h.working;
          limited = h.limited;
          held = rw (lookup-insert, e) (joined ((nat_eq.beq_iff (kind x) k).0 e));
        })
      ]

  pub use_all-Shows :
      (k n : ℕ) (us : List (Use A)) (r : Recorder A) (l : List A)
      → Shows k n r l
      → Shows k n (use_all us r) (pushed k us l)
  unfolding reset lookup
  use_all-Shows k n [] r l h = h
  use_all-Shows k n (pushes events ∷ us) r l h =
      use_all-Shows k n us (push_events kind events r) (after_push k l events)
        (push_events-Shows k n events r l h)
  use_all-Shows k n (resets ∷ us) r l h =
      use_all-Shows k n us (reset r).1 []
        (record { working = h.working; limited = h.limited; held = refl })

  -- After any sequence of pushes and resets of a recorder that starts empty, and until the process
  -- forks, the queue of each kind of event holds exactly the last of the events that were pushed
  -- for that kind since the last reset, in their order, as many as the limit of the kind allows.
  pub queue-use_all :
      (k : ℕ) (us : List (Use A)) (r : Recorder A)
      → r.forked ≡ false
      → r.events ≡ []
      → queue k (use_all us r) ≡ last_of (limit k r) (pushed k us [])
  unfolding lookup
  queue-use_all k us r working empty =
      (use_all-Shows k (limit k r) us r [] (record {
        working = working;
        limited = refl;
        held = ap (λ d. or_empty (lookup k d)) empty;
      })).held

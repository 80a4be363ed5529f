-- ===== src/Hooks.antt =====
-- ddtrace/_hooks.py: functions registered under a name. A function is known by its address, and a
-- set of functions is a list without repetition; the order in which Python iterates the set plays
-- no part in the theorem. Calling a function changes a state, and may raise: the Boolean of a call
-- is false for an Exception.
use dd_trace_py.Base.{
  ℕ, ◌≡◌, refl, arith, Bool, true, false, ◌||◌, ◌&&◌, not, Option, none, some, List, [], ◌∷◌, ◌++◌,
  if◌then◌else◌, keep, any, count_if, nat_beq, nat_eq, ◌==◌, Eq, Bool-cases, Option-cases, inl, inr,
  ap, sym, ◌∙◌, ◌+◌, nat_beq_iff, count_if-append,
}
use dd_trace_py.Base.Dict.{Dict, lookup, insert, lookup-insert}

abbrev or_empty : Option (List ℕ) → List ℕ
or_empty none = []
or_empty (some l) = l

-- `set.add`
abbrev add : ℕ → List ℕ → List ℕ
add func l = if any (nat_beq func) l then l else l ++ (func ∷ [])

-- `set.remove`, with its KeyError ignored
abbrev discard : ℕ → List ℕ → List ℕ
discard func l = keep (λ g. not (nat_beq func g)) l

-- the loop of `emit`: an Exception is logged, and the next function is called
abbrev emit_all {σ} : {S : Type σ} → (ℕ → S → S × Bool) → List ℕ → S → S
emit_all call [] s = s
emit_all call (func ∷ l) s = emit_all call l (call func s).0

-- how often a function is in a set
abbrev pub times : ℕ → List ℕ → ℕ
times func = count_if (nat_beq func)

-- A call that counts those of one function, and raises.
abbrev pub tally : ℕ → ℕ → ℕ → ℕ × Bool
tally func g n = (if nat_beq func g then n + 1 else n, false)

abbrev pub bit : Bool → ℕ
bit true = 1
bit false = 0

emit_all-tally : (func : ℕ) (l : List ℕ) (n : ℕ) → emit_all (tally func) l n ≡ n + times func l
emit_all-tally func [] n = omega arith
emit_all-tally func (g ∷ l) n = elim (Bool-cases (nat_beq func g)) [
  | inl e ↦ rw e (omega (arith, emit_all-tally func l (n + 1)))
  | inr e ↦ rw e (emit_all-tally func l n)
]

any-times : (func : ℕ) (l : List ℕ) → any (nat_beq func) l ≡ not (nat_beq (times func l) 0)
any-times func [] = refl
any-times func (g ∷ l) = ground (arith, any-times func l)

bit-any : (func : ℕ) (l : List ℕ) (b : Bool) → times func l ≡ bit b → any (nat_beq func) l ≡ b
bit-any func l true h = any-times func l ∙ rw h refl
bit-any func l false h = any-times func l ∙ rw h refl

times-add :
    (func g : ℕ) (l : List ℕ) (b : Bool)
    → times func l ≡ bit b
    → times func (add g l) ≡ bit (nat_beq g func || b)
times-add func g l b h = elim (Bool-cases (nat_beq g func)) [
  | inl q ↦ rw ((nat_beq_iff g func).0 q, bit-any func l b h) (added b h)
  | inr q ↦ elim (Bool-cases (any (nat_beq g) l)) [
    | inl e ↦ rw (e, q) h
    | inr e ↦ rw (e, q, count_if-append) (ground (arith, q, h))
  ]
]
  where
    added :
        (b : Bool)
        → times func l ≡ bit b
        → times func (if b then l else l ++ (func ∷ [])) ≡ bit (nat_beq func func || b)
    added true h = ground (arith, h)
    added false h = rw count_if-append (ground (arith, h))

times-discard :
    (func g : ℕ) (l : List ℕ)
    → times func (discard g l) ≡ (if nat_beq g func then 0 else times func l)
times-discard func g [] = ground arith
times-discard func g (j ∷ l) = ground (arith, times-discard func g l)

module _ {κ} {K : Type κ} ⦃keys : Eq K⦄ where
  -- `self._hooks.get(hook, ())`
  abbrev pub functions : K → Dict K (List ℕ) → List ℕ
  functions hook d = or_empty (lookup hook d)

  -- `register(hook, func)`
  unfoldable pub register : K → ℕ → Dict K (List ℕ) → Dict K (List ℕ)
  register hook func d = insert hook (add func (functions hook d)) d

  -- `deregister(hook, func)`
  unfoldable pub deregister : K → ℕ → Dict K (List ℕ) → Dict K (List ℕ)
  deregister hook func d = elim (lookup hook d) [
    | none ↦ d
    | some l ↦ insert hook (discard func l) d
  ]

  -- `emit(hook, …)`
  unfoldable pub emit {σ} : {S : Type σ} → (ℕ → S → S × Bool) → K → Dict K (List ℕ) → S → S
  emit call hook d s = emit_all call (functions hook d) s

pub data Change {κ} (K : Type κ) : Type κ where
  add_hook : K → ℕ → Change K
  remove_hook : K → ℕ → Change K

module _ {κ} {K : Type κ} ⦃keys : Eq K⦄ where
  abbrev pub apply : List (Change K) → Dict K (List ℕ) → Dict K (List ℕ)
  apply [] d = d
  apply (add_hook hook func ∷ cs) d = apply cs (register hook func d)
  apply (remove_hook hook func ∷ cs) d = apply cs (deregister hook func d)

  -- whether the last change of `func` under `hook` was to register it
  abbrev pub is_in : K → ℕ → List (Change K) → Bool → Bool
  is_in hook func [] b = b
  is_in hook func (add_hook h g ∷ cs) b =
      is_in hook func cs (if h == hook then nat_beq g func || b else b)
  is_in hook func (remove_hook h g ∷ cs) b =
      is_in hook func cs (if h == hook then not (nat_beq g func) && b else b)

  register-times :
      (hook h : K) (func g : ℕ) (d : Dict K (List ℕ)) (b : Bool)
      → times func (functions hook d) ≡ bit b
      → times func (functions hook (register h g d))
        ≡ bit (if h == hook then nat_beq g func || b else b)
  unfolding register
  register-times hook h func g d b e = elim (Bool-cases (h == hook)) [
    | inl q ↦
        rw (lookup-insert, q, (keys.beq_iff h hook).0 q) (times-add func g (functions hook d) b e)
    | inr q ↦ rw (lookup-insert, q) e
  ]

  functions-deregister :
      (hook h : K) (g : ℕ) (d : Dict K (List ℕ))
      → functions hook (deregister h g d)
        ≡ (if h == hook then discard g (functions hook d) else functions hook d)
  unfolding deregister
  functions-deregister hook h g d = elim (Option-cases (lookup h d)) [
    | inr (l, e) ↦ elim (Bool-cases (h == hook)) [
      | inl q ↦
          rw (e, deregister, lookup-insert, q)
            (rw (ap (λ k. lookup k d) (sym ((keys.beq_iff h hook).0 q)) ∙ e) refl)
      | inr q ↦ rw (e, deregister, lookup-insert, q) refl
    ]
    | inl e ↦ elim (Bool-cases (h == hook)) [
      | inl q ↦
          rw (e, deregister, q)
            (rw (ap (λ k. lookup k d) (sym ((keys.beq_iff h hook).0 q)) ∙ e) refl)
      | inr q ↦ rw (e, deregister, q) refl
    ]
  ]

  deregister-times :
      (hook h : K) (func g : ℕ) (d : Dict K (List ℕ)) (b : Bool)
      → times func (functions hook d) ≡ bit b
      → times func (functions hook (deregister h g d))
        ≡ bit (if h == hook then not (nat_beq g func) && b else b)
  deregister-times hook h func g d b e = elim (Bool-cases (h == hook)) [
    | inl q ↦
        ap (times func) (functions-deregister hook h g d)
        ∙ rw q (times-discard func g (functions hook d) ∙ ground (arith, e))
    | inr q ↦ ap (times func) (functions-deregister hook h g d) ∙ rw q e
  ]

  apply-times :
      (hook : K) (func : ℕ) (cs : List (Change K)) (d : Dict K (List ℕ)) (b : Bool)
      → times func (functions hook d) ≡ bit b
      → times func (functions hook (apply cs d)) ≡ bit (is_in hook func cs b)
  apply-times hook func [] d b e = e
  apply-times hook func (add_hook h g ∷ cs) d b e =
      apply-times hook func cs (register h g d) _ (register-times hook h func g d b e)
  apply-times hook func (remove_hook h g ∷ cs) d b e =
      apply-times hook func cs (deregister h g d) _ (deregister-times hook h func g d b e)

  -- After any registrations and deregistrations, an emission calls a function exactly once if it is
  -- registered under that name, the last change of it deciding, and otherwise never, however often
  -- it was registered and although each function that is called raises.
  pub emit-apply :
      (hook : K) (func : ℕ) (cs : List (Change K))
      → emit (tally func) hook (apply cs []) 0 ≡ bit (is_in hook func cs false)
  unfolding emit lookup
  emit-apply hook func cs =
      emit_all-tally func (functions hook (apply cs [])) 0
      ∙ omega (arith, apply-times hook func cs [] false refl)

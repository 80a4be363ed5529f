-- ===== src/Cache.antt =====
-- ddtrace/utils/cache.py: `cached`, which keeps the results of a function of one argument with the
-- count of their uses. The function may raise. The lock makes each call one step, so the second
-- look into the cache finds what the first one found.
pub mod Method
pub mod Bound
use mathlib.Core.Option
use dd_trace_py.Base.{
  ℕ, ◌+◌, ◌/◌, ◌≡◌, refl, sym, ◌∙◌, arith, Option, none, some, List, [], ◌∷◌, if◌then◌else◌,
  Bool-cases, Option-cases, inl, inr, Eq, ◌==◌, leb, take, length, map, ap,
}
use dd_trace_py.Base.Dict.{Dict, lookup, insert, erase, lookup-insert, lookup-erase}

module _ {ℓ κ} {K : Type κ} ⦃keys : Eq K⦄ {V : Type ℓ} where
  -- an entry goes before the first one whose count is at least its own
  abbrev pub place : K × (V × ℕ) → List (K × (V × ℕ)) → List (K × (V × ℕ))
  place e [] = e ∷ []
  place e (g ∷ l) = let rest = place e l in if leb e.1.1 g.1.1 then e ∷ g ∷ l else g ∷ rest

  -- `sorted(cache, key=lambda h: cache[h][1])`, which is stable
  abbrev pub sorted : List (K × (V × ℕ)) → List (K × (V × ℕ))
  sorted [] = []
  sorted (e ∷ l) = place e (sorted l)

  abbrev pub erase_all : List (K × (V × ℕ)) → Dict K (V × ℕ) → Dict K (V × ℕ)
  erase_all [] d = d
  erase_all (e ∷ l) d = erase_all l (erase e.0 d)

  -- the loop at the head of `cached_f`: a full cache loses the half that is used least
  unfoldable pub shrink : ℕ → Dict K (V × ℕ) → Dict K (V × ℕ)
  shrink maxsize d =
      if leb maxsize (length d) then erase_all (take (maxsize / 2) (sorted d)) d else d

module _ {ℓ κ} {K : Type κ} ⦃keys : Eq K⦄ {V : Type ℓ} (f : K → Option V) (maxsize : ℕ) where
  -- `cached_f(key)`: the answer, `none` for an exception of `f`, and the cache
  unfoldable pub cached_f : K → Dict K (V × ℕ) → Option V × Dict K (V × ℕ)
  cached_f key d =
      let d' = shrink maxsize d in
      elim (lookup key d') [
        | some (value, count) ↦ (some value, insert key (value, count + 1) d')
        | none ↦ elim (f key) [
          | none ↦ (none, d')
          | some result ↦ (some result, insert key (result, 1) d')
        ]
      ]

  abbrev pub answers : List K → Dict K (V × ℕ) → List (Option V)
  answers [] d = []
  answers (k ∷ ks) d = (cached_f k d).0 ∷ answers ks (cached_f k d).1

  -- Each value in the cache is what `f` answers.
  abbrev pub IsFaithful : Dict K (V × ℕ) → Type (ℓ ⊔ κ)
  IsFaithful d = (k : K) (e : V × ℕ) → lookup k d ≡ some e → f k ≡ some e.0

  erase-IsFaithful : (k : K) (d : Dict K (V × ℕ)) → IsFaithful d → IsFaithful (erase k d)
  erase-IsFaithful k d h j e p = elim (Bool-cases (k == j)) [
    | inl g ↦ absurd (ground (arith, p, g, lookup-erase k j d))
    | inr g ↦ h j e (ground (arith, p, g, lookup-erase k j d))
  ]

  erase_all-IsFaithful :
      (l : List (K × (V × ℕ))) (d : Dict K (V × ℕ)) → IsFaithful d → IsFaithful (erase_all l d)
  erase_all-IsFaithful [] d h = h
  erase_all-IsFaithful (e ∷ l) d h = erase_all-IsFaithful l (erase e.0 d) (erase-IsFaithful e.0 d h)

  shrink-IsFaithful : (d : Dict K (V × ℕ)) → IsFaithful d → IsFaithful (shrink maxsize d)
  unfolding shrink
  shrink-IsFaithful d h = elim (Bool-cases (leb maxsize (length d))) [
    | inl g ↦ rw g (erase_all-IsFaithful (take (maxsize / 2) (sorted d)) d h)
    | inr g ↦ rw g h
  ]

  insert-IsFaithful :
      (k : K) (e : V × ℕ) (d : Dict K (V × ℕ))
      → IsFaithful d
      → f k ≡ some e.0
      → IsFaithful (insert k e d)
  insert-IsFaithful k e d h v j g p = elim (Bool-cases (k == j)) [
    | inl q ↦
        ap f (sym ((keys.beq_iff k j).0 q))
        ∙ v
        ∙ ap (Option.map (λ x. x.0)) (rw (lookup-insert k j e d, q) at p)
    | inr q ↦ h j g (ground (arith, p, q, lookup-insert k j e d))
  ]

  pub cached_f-hit :
      (k : K) (v : V) (n : ℕ) (d : Dict K (V × ℕ))
      → lookup k (shrink maxsize d) ≡ some (v, n)
      → cached_f k d ≡ (some v, insert k (v, n + 1) (shrink maxsize d))
  unfolding cached_f
  cached_f-hit k v n d p = rw (p, cached_f) refl

  pub cached_f-miss :
      (k : K) (d : Dict K (V × ℕ)) (o : Option V)
      → lookup k (shrink maxsize d) ≡ none
      → f k ≡ o
      → cached_f k d
        ≡ (o, elim o [ none ↦ shrink maxsize d | some v ↦ insert k (v, 1) (shrink maxsize d) ])
  unfolding cached_f
  cached_f-miss k d none p q = rw (p, q, cached_f) refl
  cached_f-miss k d (some v) p q = rw (p, q, cached_f) refl

  pub cached_f-IsFaithful :
      (k : K) (d : Dict K (V × ℕ))
      → IsFaithful d
      → ((cached_f k d).0 ≡ f k) × IsFaithful (cached_f k d).1
  cached_f-IsFaithful k d h = elim (Option-cases (lookup k (shrink maxsize d))) [
    | inr ((v, n), p) ↦
        let e = shrink-IsFaithful d h k (v, n) p in
        rw (cached_f-hit k v n d p)
          (sym e, insert-IsFaithful k (v, n + 1) (shrink maxsize d) (shrink-IsFaithful d h) e)
    | inl p ↦ elim (Option-cases (f k)) [
      | inl q ↦ rw (cached_f-miss k d none p q) (sym q, shrink-IsFaithful d h)
      | inr (v, q) ↦
          rw (cached_f-miss k d (some v) p q)
            (sym q, insert-IsFaithful k (v, 1) (shrink maxsize d) (shrink-IsFaithful d h) q)
    ]
  ]

  answers-map : (ks : List K) (d : Dict K (V × ℕ)) → IsFaithful d → answers ks d ≡ map f ks
  answers-map [] d h = refl
  answers-map (k ∷ ks) d h =
      let (v, h') = cached_f-IsFaithful k d h in rw (v, answers-map ks (cached_f k d).1 h') refl

  -- From an empty cache, whatever its size and whatever is dropped from it, the calls answer what
  -- the function answers, call by call, its exceptions included.
  pub cached_f-map : (ks : List K) → answers ks [] ≡ map f ks
  unfolding lookup
  cached_f-map ks = answers-map ks [] (λ k e p. absurd (ground (arith, p)))

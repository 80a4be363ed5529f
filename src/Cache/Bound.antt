-- ===== src/Cache/Bound.antt =====
-- ddtrace/utils/cache.py: the cache of `cached` stays within `maxsize`.
use dd_trace_py.Base.{
  ℕ, zero, suc, ◌+◌, ◌/◌, ◌≤◌, ◌<◌, ◌≡◌, refl, arith, Bool, true, false, ◌||◌, Option, none, some,
  List, [], ◌∷◌, Bool-cases, Option-cases, inl, inr, Eq, ◌==◌, beq_refl, leb, leb→le, take, length,
}
use dd_trace_py.Base.Dict.{Dict, lookup, insert, erase}
use dd_trace_py.Cache.{place, sorted, erase_all, shrink, cached_f, cached_f-hit, cached_f-miss}

module _ {ℓ κ} {K : Type κ} ⦃keys : Eq K⦄ {V : Type ℓ} where
  abbrev has_key : K → Dict K (V × ℕ) → Bool
  has_key k [] = false
  has_key k ((j, v) ∷ d) = (j == k) || has_key k d

  length-erase : (k : K) (d : Dict K (V × ℕ)) → length (erase k d) ≤ length d
  unfolding erase
  length-erase k [] = omega arith
  length-erase k ((j, v) ∷ d) = ground (arith, length-erase k d)

  length-erase_key :
      (k : K) (d : Dict K (V × ℕ)) → has_key k d ≡ true → length (erase k d) < length d
  unfolding erase
  length-erase_key k [] h = absurd (ground (arith, h))
  length-erase_key k ((j, v) ∷ d) h = elim (Bool-cases (j == k)) [
    | inl same ↦ rw same (omega (arith, length-erase k d))
    | inr other ↦ rw other (omega (arith, length-erase_key k d (ground (arith, h, other))))
  ]

  length-erase_all :
      (l : List (K × (V × ℕ))) (d : Dict K (V × ℕ)) → length (erase_all l d) ≤ length d
  length-erase_all [] d = omega arith
  length-erase_all (e ∷ l) d = omega (arith, length-erase_all l (erase e.0 d), length-erase e.0 d)

  length-insert : (k : K) (v : V × ℕ) (d : Dict K (V × ℕ)) → length (insert k v d) ≤ length d + 1
  unfolding insert
  length-insert k v [] = omega arith
  length-insert k v ((j, w) ∷ d) = ground (arith, length-insert k v d)

  -- The first entry of a list, if there is one, has its key in the cache.
  abbrev HeadIn : List (K × (V × ℕ)) → Dict K (V × ℕ) → Type 0
  HeadIn [] d = Unit
  HeadIn (e ∷ l) d = has_key e.0 d ≡ true

  place-HeadIn :
      (e : K × (V × ℕ)) (l : List (K × (V × ℕ))) (d : Dict K (V × ℕ))
      → HeadIn l d
      → HeadIn (place e l) (e ∷ d)
  place-HeadIn e [] d h = ground (arith, beq_refl e.0)
  place-HeadIn e (g ∷ l) d h = elim (Bool-cases (leb e.1.1 g.1.1)) [
    | inl le ↦ rw le (ground (arith, beq_refl e.0))
    | inr gt ↦ rw gt (ground (arith, h))
  ]

  sorted-HeadIn : (d : Dict K (V × ℕ)) → HeadIn (sorted d) d
  sorted-HeadIn [] = record {}
  sorted-HeadIn (e ∷ d) = place-HeadIn e (sorted d) d (sorted-HeadIn d)

  length-place : (e : K × (V × ℕ)) (l : List (K × (V × ℕ))) → length (place e l) ≡ length l + 1
  length-place e [] = refl
  length-place e (g ∷ l) = ground (arith, length-place e l)

  length-sorted : (d : Dict K (V × ℕ)) → length (sorted d) ≡ length d
  length-sorted [] = refl
  length-sorted (e ∷ d) = omega (arith, length-place e (sorted d), length-sorted d)

  length-cut :
      (n : ℕ) (l : List (K × (V × ℕ))) (d : Dict K (V × ℕ))
      → 1 ≤ n
      → HeadIn l d
      → 1 ≤ length l
      → length (erase_all (take n l) d) < length d
  length-cut zero l d le h some_entry = absurd (omega (arith, le))
  length-cut (suc n) [] d le h some_entry = absurd (omega (arith, some_entry))
  length-cut (suc n) (e ∷ l) d le h some_entry =
      omega (arith, length-erase_all (take n l) (erase e.0 d), length-erase_key e.0 d h)

  length-shrink :
      (maxsize : ℕ) (d : Dict K (V × ℕ))
      → 2 ≤ maxsize
      → length d ≤ maxsize
      → length (shrink maxsize d) < maxsize
  unfolding shrink
  length-shrink maxsize d le h = elim (Bool-cases (leb maxsize (length d))) [
    | inl full ↦
        let at_least = leb→le maxsize (length d) full in
        let cut =
          length-cut (maxsize / 2) (sorted d) d (omega (arith, le)) (sorted-HeadIn d)
            (omega (arith, length-sorted d, le, at_least)) in
        rw full (omega (arith, cut, h))
    | inr room ↦ rw room (ground (arith, room))
  ]

  module _ (f : K → Option V) (maxsize : ℕ) where
    -- The cache after the calls with some keys.
    abbrev pub cache_after : List K → Dict K (V × ℕ) → Dict K (V × ℕ)
    cache_after [] d = d
    cache_after (k ∷ ks) d = cache_after ks (cached_f f maxsize k d).1

  module _ (f : K → Option V) (maxsize : ℕ) (le : 2 ≤ maxsize) where
    length-cached_f :
        (k : K) (d : Dict K (V × ℕ))
        → length d ≤ maxsize
        → length (cached_f f maxsize k d).1 ≤ maxsize
    length-cached_f k d h =
        let room = length-shrink maxsize d le h in
        elim (Option-cases (lookup k (shrink maxsize d))) [
          | inr ((v, n), p) ↦
              rw (cached_f-hit f maxsize k v n d p)
                (omega (arith, room, length-insert k (v, n + 1) (shrink maxsize d)))
          | inl p ↦ elim (Option-cases (f k)) [
            | inl q ↦ rw (cached_f-miss f maxsize k d none p q) (omega (arith, room))
            | inr (v, q) ↦
                rw (cached_f-miss f maxsize k d (some v) p q)
                  (omega (arith, room, length-insert k (v, 1) (shrink maxsize d)))
          ]
        ]

    -- With a `maxsize` of two or more, a cache within `maxsize` is within it after any calls.
    pub cached_f-within :
        (ks : List K) (d : Dict K (V × ℕ))
        → length d ≤ maxsize
        → length (cache_after f maxsize ks d) ≤ maxsize
    cached_f-within [] d h = h
    cached_f-within (k ∷ ks) d h =
        cached_f-within ks (cached_f f maxsize k d).1 (length-cached_f k d h)

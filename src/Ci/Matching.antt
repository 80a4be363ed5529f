-- ===== src/Ci/Matching.antt =====
-- ddtrace/ext/ci.py: how `re.sub` goes through a URL.
use dd_trace_py.Base.{
  ℕ, zero, suc, ◌+◌, ◌-◌, ◌≡◌, refl, ◌∙◌, sym, ap, arith, none, some, [], ◌∷◌, ◌++◌, nat_beq, inl,
  inr, Bool-cases, ◌⊎◌, Option-cases,
}
use dd_trace_py.Base.Text.{Text}
use dd_trace_py.Base.Strings.{after_prefix}
use dd_trace_py.Ci.Refs.{
  http, https, through_at, match_after, credentials, length_text, filter_from,
}

abbrev pub drop_text : ℕ → Text → Text
drop_text zero t = t
drop_text (suc n) [] = []
drop_text (suc n) (c ∷ t) = drop_text n t

pub filter_from-drop_text : (k : ℕ) (t : Text) → filter_from k t ≡ filter_from 0 (drop_text k t)
unfolding filter_from
filter_from-drop_text zero t = refl
filter_from-drop_text (suc k) [] = refl
filter_from-drop_text (suc k) (c ∷ t) = filter_from-drop_text k t

-- Where the credentials end, none follow before the slash.
through_at-drop_text : (n : ℕ) (t : Text) → through_at t ≡ n → through_at (drop_text n t) ≡ 0
through_at-drop_text zero t e = e
through_at-drop_text (suc n) [] e = refl
through_at-drop_text (suc n) (c ∷ t) e = ground (arith, through_at-drop_text n t, e)

after_prefix-append : (p t r : Text) → after_prefix p t ≡ some r → t ≡ p ++ r
after_prefix-append [] t r e = ground (arith, e)
after_prefix-append (d ∷ p) [] r e = absurd (ground (arith, e))
after_prefix-append (d ∷ p) (c ∷ t) r e = elim (Bool-cases (nat_beq d c)) [
  | inl same ↦
      ap (c ∷◌) (after_prefix-append p t r (ground (arith, same, e))) ∙ ground (arith, same)
  | inr other ↦ absurd (ground (arith, other, e))
]

abbrev pub IsScheme : Text → Type 0
IsScheme scheme = (scheme ≡ http) ⊎ (scheme ≡ https)

-- How the filter goes on: it keeps a character, or it takes the credentials after a scheme.
pub data Step (c : ℕ) (t : Text) : Type 0 where
  keeps : credentials (c ∷ t) ≡ none → filter_from 0 (c ∷ t) ≡ c ∷ filter_from 0 t → Step c t
  takes :
      (scheme before : Text) (k : ℕ)
      → IsScheme scheme
      → c ∷ t ≡ scheme ++ before
      → through_at (drop_text k t) ≡ 0
      → filter_from 0 (c ∷ t) ≡ scheme ++ filter_from k t
      → Step c t

-- What the first match is made of
pub nat-cases : (n : ℕ) → (n ≡ 0) ⊎ ((m : ℕ) × (n ≡ suc m))
nat-cases zero = inl refl
nat-cases (suc m) = inr (m, refl)

pub through_at-cases : (t : Text) → (through_at t ≡ 0) ⊎ ((n : ℕ) × (through_at t ≡ suc n))
through_at-cases t = nat-cases (through_at t)

data Found (t : Text) : Type 0 where
  nothing : credentials t ≡ none → Found t
  found :
      (scheme before : Text) (n : ℕ)
      → IsScheme scheme
      → t ≡ scheme ++ before
      → through_at before ≡ suc n
      → credentials t ≡ some (scheme, suc n)
      → Found t

match_after-cases :
    (scheme t : Text)
    → (match_after scheme (after_prefix scheme t) ≡ none)
      ⊎ ((before : Text) × (n : ℕ) × (t ≡ scheme ++ before)
          × (through_at before ≡ suc n)
          × (match_after scheme (after_prefix scheme t) ≡ some (scheme, suc n)))
match_after-cases scheme t = elim (Option-cases (after_prefix scheme t)) [
  | inl missing ↦ inl (rw missing refl)
  | inr (before, there) ↦ elim (through_at-cases before) [
    | inl zero_at ↦ inl (rw (there, match_after, zero_at) refl)
    | inr (n, at) ↦
        inr (
          before,
          n,
          after_prefix-append scheme t before there,
          at,
          rw (there, match_after, at) refl,
        )
  ]
]

find : (t : Text) → Found t
find t = elim (match_after-cases https t) [
  | inr (before, n, split, at, e) ↦ found https before n (inr refl) split at (rw e refl)
  | inl no_https ↦ elim (match_after-cases http t) [
    | inr (before, n, split, at, e) ↦
        found http before n (inl refl) split at (rw (no_https, e) refl)
    | inl no_http ↦ nothing (rw (no_https, no_http) refl)
  ]
]

http_length : (n : ℕ) → 7 + suc n - 1 ≡ suc (suc (suc (suc (suc (suc (suc n))))))
http_length n = omega arith

https_length : (n : ℕ) → 8 + suc n - 1 ≡ suc (suc (suc (suc (suc (suc (suc (suc n)))))))
https_length n = omega arith

after_scheme :
    (c : ℕ) (t scheme before : Text) (n : ℕ)
    → IsScheme scheme
    → c ∷ t ≡ scheme ++ before
    → drop_text (length_text scheme + suc n - 1) t ≡ drop_text (suc n) before
after_scheme c t scheme before n (inl p) split =
    rw (p, http_length n)
      (ap (drop_text (suc (suc (suc (suc (suc (suc (suc (suc n)))))))))
        (split ∙ ap (λ s. s ++ before) p))
after_scheme c t scheme before n (inr p) split =
    rw (p, https_length n)
      (ap (drop_text (suc (suc (suc (suc (suc (suc (suc (suc (suc n))))))))))
        (split ∙ ap (λ s. s ++ before) p))

pub step : (c : ℕ) (t : Text) → Step c t
unfolding filter_from
step c t = elim (find (c ∷ t)) [
  | nothing e ↦ keeps e (rw (filter_from, e) refl)
  | found scheme before n which split at e ↦
      takes scheme before (length_text scheme + suc n - 1) which split
        (ap through_at (after_scheme c t scheme before n which split)
          ∙ through_at-drop_text (suc n) before at)
        (rw (filter_from, e) refl)
]

through_at-scheme : (scheme rest : Text) → IsScheme scheme → through_at (scheme ++ rest) ≡ 0
through_at-scheme scheme rest (inl p) = rw p refl
through_at-scheme scheme rest (inr p) = rw p refl

pub through_at-filter_from : (t : Text) → through_at (filter_from 0 t) ≡ through_at t
unfolding filter_from
through_at-filter_from [] = refl
through_at-filter_from (c ∷ t) = elim (step c t) [
  | keeps n e ↦ rw e (rw (through_at-filter_from t) refl)
  | takes scheme before k which split a e ↦
      ap through_at e
      ∙ through_at-scheme scheme (filter_from k t) which
      ∙ sym (ap through_at split ∙ through_at-scheme scheme before which)
]

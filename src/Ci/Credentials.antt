-- ===== src/Ci/Credentials.antt =====
-- ddtrace/ext/ci.py: no credentials are left in a repository's URL.
use mathlib.Core.Option
use mathlib.Core.Path.{subst}
use dd_trace_py.Base.{
  ℕ, zero, suc, ◌≡◌, ◌≢◌, refl, ◌∙◌, sym, ap, arith, false, Option, none, some, [], ◌∷◌, ◌++◌,
  nat_beq, inl, inr, Bool-cases, All,
}
use dd_trace_py.Base.Text.{Text, codes}
use dd_trace_py.Base.Strings.{after_prefix}
use dd_trace_py.Ci.Refs.{
  http, https, through_at, match_after, first_match, credentials, filter_from,
  filter_sensitive_info, shown,
}
use dd_trace_py.Ci.Matching.{
  IsScheme, keeps, takes, step, through_at-filter_from, filter_from-drop_text, drop_text,
  through_at-cases,
}

abbrev NoH : Text → Type 0
NoH = All (λ c. nat_beq c 104 ≡ false)

after_h :
    (d : ℕ) (p scheme rest : Text)
    → nat_beq d 104 ≡ false
    → IsScheme scheme
    → after_prefix (d ∷ p) (scheme ++ rest) ≡ none
after_h d p scheme rest ne (inl e) = rw e (ground (arith, ne))
after_h d p scheme rest ne (inr e) = rw e (ground (arith, ne))

-- Looking for what has no `h` commutes with the filter, which only takes text after an `h`.
after_prefix-filter_from :
    (p t : Text)
    → NoH p
    → after_prefix p (filter_from 0 t) ≡ Option.map (filter_from 0) (after_prefix p t)
unfolding filter_from
after_prefix-filter_from [] t h = refl
after_prefix-filter_from (d ∷ p) [] h = refl
after_prefix-filter_from (d ∷ p) (c ∷ t) h = elim (step c t) [
  | keeps n e ↦ rw e (elim (Bool-cases (nat_beq d c)) [
    | inl same ↦ rw same (after_prefix-filter_from p t h.1)
    | inr other ↦ rw other refl
  ])
  | takes scheme before k which split a e ↦
      ap (after_prefix (d ∷ p)) e
      ∙ after_h d p scheme (filter_from k t) h.0 which
      ∙ sym (
          ap (λ s. Option.map (filter_from 0) (after_prefix (d ∷ p) s)) split
          ∙ ap (Option.map (filter_from 0)) (after_h d p scheme before h.0 which))
]

after_prefix-keeps :
    (p : Text) (c : ℕ) (t : Text)
    → NoH p
    → after_prefix (104 ∷ p) (c ∷ filter_from 0 t)
      ≡ Option.map (filter_from 0) (after_prefix (104 ∷ p) (c ∷ t))
after_prefix-keeps p c t h = elim (Bool-cases (nat_beq 104 c)) [
  | inl same ↦ rw same (after_prefix-filter_from p t h)
  | inr other ↦ rw other refl
]

match_after-map :
    (scheme : Text) (o : Option Text)
    → match_after scheme (Option.map (filter_from 0) o) ≡ match_after scheme o
match_after-map scheme none = refl
match_after-map scheme (some rest) = rw (match_after, through_at-filter_from rest) refl

found-keeps :
    (scheme p : Text) (c : ℕ) (t : Text)
    → NoH p
    → match_after scheme (after_prefix (104 ∷ p) (c ∷ filter_from 0 t))
      ≡ match_after scheme (after_prefix (104 ∷ p) (c ∷ t))
found-keeps scheme p c t h =
    ap (match_after scheme) (after_prefix-keeps p c t h)
    ∙ match_after-map scheme (after_prefix (104 ∷ p) (c ∷ t))

credentials-keeps : (c : ℕ) (t : Text) → credentials (c ∷ filter_from 0 t) ≡ credentials (c ∷ t)
credentials-keeps c t =
    ap (λ m. first_match m (match_after http (after_prefix http (c ∷ filter_from 0 t))))
      (found-keeps https (codes "ttps://") c t
        (refl, (refl, (refl, (refl, (refl, (refl, (refl, record {}))))))))
    ∙ ap (first_match (match_after https (after_prefix https (c ∷ t)))) (
        found-keeps http (codes "ttp://") c t
          (refl, (refl, (refl, (refl, (refl, (refl, record {})))))))

-- No credentials follow a scheme anywhere in the text.
abbrev IsClean : Text → Type 0
IsClean [] = Unit
IsClean (c ∷ t) = (credentials (c ∷ t) ≡ none) × IsClean t

no_match : (scheme rest : Text) → through_at rest ≡ 0 → match_after scheme (some rest) ≡ none
no_match scheme rest a = rw (match_after, a) refl

match_none : (scheme rest : Text) → match_after scheme (some rest) ≡ none → through_at rest ≡ 0
match_none scheme rest e = elim (through_at-cases rest) [
  | inl none_there ↦ none_there
  | inr (n, there) ↦ ground (arith, e, there)
]

first_none : (m : Option (Text × ℕ)) → first_match m none ≡ none → m ≡ none
first_none none e = refl
first_none (some x) e = e

scheme-IsClean :
    (scheme rest : Text)
    → IsScheme scheme
    → through_at rest ≡ 0
    → IsClean rest
    → IsClean (scheme ++ rest)
scheme-IsClean scheme rest (inl p) a h =
    rw p (no_match http rest a, (refl, (refl, (refl, (refl, (refl, (refl, h)))))))
scheme-IsClean scheme rest (inr p) a h = rw p (
  ap (λ m. first_match m none) (no_match https rest a),
  (refl, (refl, (refl, (refl, (refl, (refl, (refl, h))))))),
)

filter_from-IsClean : (k : ℕ) (t : Text) → IsClean (filter_from k t)
unfolding filter_from
filter_from-IsClean k [] = record {}
filter_from-IsClean (suc k) (c ∷ t) = filter_from-IsClean k t
filter_from-IsClean zero (c ∷ t) = elim (step c t) [
  | keeps n e ↦ rw e (credentials-keeps c t ∙ n, filter_from-IsClean 0 t)
  | takes scheme before k which split a e ↦ rw e (
      scheme-IsClean scheme (filter_from k t) which
        (ap through_at (filter_from-drop_text k t) ∙ through_at-filter_from (drop_text k t) ∙ a)
        (filter_from-IsClean k t))
]

IsClean-append : (before t : Text) → IsClean (before ++ t) → IsClean t
IsClean-append [] t h = h
IsClean-append (c ∷ before) t h = IsClean-append before t h.1

through_at-found :
    (u after : Text) → All (λ c. nat_beq c 47 ≡ false) u → through_at (u ++ (64 ∷ after)) ≢ 0
through_at-found [] after ne e = ground (arith, e)
through_at-found (c ∷ u) after ne e = elim (through_at-cases (u ++ (64 ∷ after))) [
  | inl none_there ↦ through_at-found u after ne.1 none_there
  | inr (n, there) ↦ ground (arith, there, e, ne.0)
]

IsClean-head :
    (scheme rest : Text)
    → IsScheme scheme
    → IsClean (scheme ++ rest)
    → credentials (scheme ++ rest) ≡ none
IsClean-head scheme rest (inl p) = rw p (λ h. h.0)
IsClean-head scheme rest (inr p) = rw p (λ h. h.0)

credentials-found :
    (scheme rest : Text)
    → IsScheme scheme
    → credentials (scheme ++ rest) ≡ none
    → through_at rest ≡ 0
credentials-found scheme rest (inl p) e =
    match_none http rest (ap (λ s. credentials (s ++ rest)) (sym p) ∙ e)
credentials-found scheme rest (inr p) e =
    match_none https rest (first_none _ (ap (λ s. credentials (s ++ rest)) (sym p) ∙ e))

-- In what `_filter_sensitive_info` makes of a URL, `http://` or `https://` is nowhere followed by
-- an `@` with no slash between them.
pub filter_sensitive_info-clean :
    (url scheme before u after : Text)
    → IsScheme scheme
    → All (λ c. nat_beq c 47 ≡ false) u
    → filter_sensitive_info (some url) ≢ some (before ++ (scheme ++ (u ++ (64 ∷ after))))
unfolding filter_sensitive_info
filter_sensitive_info-clean url scheme before u after which ne e = through_at-found u after ne (
    credentials-found scheme (u ++ (64 ∷ after)) which (
      IsClean-head scheme (u ++ (64 ∷ after)) which (
        IsClean-append before (scheme ++ (u ++ (64 ∷ after)))
          (subst IsClean (ap shown e) (filter_from-IsClean 0 url)))))

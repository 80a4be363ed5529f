-- ===== src/Http/Query.antt =====
-- ddtrace/contrib/trace_utils.py: the query string of a URL stays private.
use dd_trace_py.Base.{
  ℕ, ◌≡◌, refl, ◌∙◌, sym, ap, false, Option, none, some, [], ◌∷◌, ◌++◌, nat_beq, All, Bool-cases,
  inl, inr,
}
use dd_trace_py.Base.Text.{Text}
use dd_trace_py.Settings.{Configs, trace_query_string}
use dd_trace_py.Settings.Codes.{HttpServerConfig}
use dd_trace_py.Http.{
  partition, with_fragment, strip_query_string, Meta, is_true, url_calls, query_calls,
  set_http_meta,
}

-- The character is not in the text.
abbrev pub Lacks : ℕ → Text → Type 0
Lacks sep = All (λ c. nat_beq c sep ≡ false)

-- `#` and a fragment, or nothing
abbrev pub tail_of : Option Text → Text
tail_of none = []
tail_of (some f) = 35 ∷ f

Lacks-append : (sep : ℕ) (a b : Text) → Lacks sep a → Lacks sep b → Lacks sep (a ++ b)
Lacks-append sep [] b h h' = h'
Lacks-append sep (c ∷ a) b h h' = (h.0, Lacks-append sep a b h.1 h')

partition-tail_of :
    (a : Text) (fragment : Option Text)
    → Lacks 35 a
    → partition 35 (a ++ tail_of fragment) ≡ (a, fragment)
unfolding partition
partition-tail_of [] none h = refl
partition-tail_of [] (some f) h = refl
partition-tail_of (c ∷ a) fragment h = rw (h.0, partition-tail_of a fragment h.1) refl

-- What stands before the `?` does not depend on what follows it.
partition-before :
    (base q q' : Text) → (partition 63 (base ++ (63 ∷ q))).0 ≡ (partition 63 (base ++ (63 ∷ q'))).0
unfolding partition
partition-before [] q q' = refl
partition-before (c ∷ base) q q' = elim (Bool-cases (nat_beq c 63)) [
  | inl same ↦ rw same refl
  | inr other ↦ rw other (ap (c ∷◌) (partition-before base q q'))
]

strip-whole :
    (a : Text) (fragment : Option Text)
    → Lacks 35 a
    → strip_query_string (a ++ tail_of fragment) ≡ with_fragment (partition 63 a).0 fragment
unfolding strip_query_string
strip-whole a fragment h = rw (partition-tail_of a fragment h) refl

strip-private :
    (base q q' : Text) (fragment : Option Text)
    → Lacks 35 base
    → Lacks 35 q
    → Lacks 35 q'
    → strip_query_string ((base ++ (63 ∷ q)) ++ tail_of fragment)
      ≡ strip_query_string ((base ++ (63 ∷ q')) ++ tail_of fragment)
strip-private base q q' fragment h g g' =
    strip-whole (base ++ (63 ∷ q)) fragment (Lacks-append 35 base (63 ∷ q) h (refl, g))
    ∙ ap (λ b. with_fragment b fragment) (partition-before base q q')
    ∙ sym (strip-whole (base ++ (63 ∷ q')) fragment (Lacks-append 35 base (63 ∷ q') h (refl, g')))

-- Where the tracing of query strings is not set to a true value, the calls on the span do not
-- depend on the query: two requests that differ in the `query` argument and in the part of the URL
-- between a `?` and the fragment make the same calls.
pub set_http_meta_private :
    (m : Meta) (c : Configs) (server : HttpServerConfig) (base q q' : Text)
    (fragment query query' : Option Text)
    → is_true (trace_query_string c) ≡ false
    → Lacks 35 base
    → Lacks 35 q
    → Lacks 35 q'
    → set_http_meta
        (record m { url = some ((base ++ (63 ∷ q)) ++ tail_of fragment); query = query })
        c
        server
      ≡ set_http_meta
          (record m { url = some ((base ++ (63 ∷ q')) ++ tail_of fragment); query = query' })
          c
          server
unfolding set_http_meta url_calls query_calls
set_http_meta_private m c server base q q' fragment query query' off h g g' =
    rw (off, strip-private base q q' fragment h g g') refl

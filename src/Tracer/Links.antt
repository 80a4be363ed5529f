-- ===== src/Tracer/Links.antt =====
-- ddtrace/span.py: what ties the spans of a trace together, under the changes of tags.
use dd_trace_py.Base.{
  ℕ, ◌≡◌, refl, ap, ◌∙◌, Bool, true, false, Option, some, String, string_eq, ◌==◌, if◌then◌else◌,
  Option-cases, inl, inr,
}
use dd_trace_py.Base.Int.{ℤ, pos, negsuc}
use dd_trace_py.Base.Text.{Text}
use dd_trace_py.Context.{Context, Store, Number, int, float}
use dd_trace_py.Span.{Span, set_metric, set_str_tag, get_context, measured_key}
use dd_trace_py.Span.Tagging.{
  Value, nothing, number, text, set_tag, set_text, set_by_key, converted, set_converted,
  set_numeric, with_user_priority, is_small, analytics_key, manual_keep_key, manual_drop_key,
  service_name_key, service_version_key,
}
use dd_trace_py.Sampler.{set_priority}

pub record Links : Type 0 where
  pub trace_id : ℕ
  pub span_id : ℕ
  pub parent_id : Option ℕ
  pub parent : Option ℕ
  pub local_root : Option ℕ
  pub context : Option Context

abbrev pub links : Span → Links
links s = record {
  trace_id = s.trace_id;
  span_id = s.span_id;
  parent_id = s.parent_id;
  parent = s.parent;
  local_root = s.local_root;
  context = s.context;
}

pub get_context-some :
    (a : ℕ) (c : Context) (s : Span) (st : Store)
    → s.context ≡ some c
    → get_context a s st ≡ (c, s, st)
unfolding get_context
get_context-some a c s st h = rw h refl

pub set_metric-links : (k : String) (v : Number) (s : Span) → links (set_metric k v s) ≡ links s
unfolding set_metric
set_metric-links k v s = refl

pub set_str_tag-links : (k : String) (v : Text) (s : Span) → links (set_str_tag k v s) ≡ links s
unfolding set_str_tag
set_str_tag-links k v s = refl

pub set_priority-links :
    (a : ℕ) (kept : Bool) (c : Context) (s : Span) (st : Store)
    → s.context ≡ some c
    → links (set_priority a kept s st).0 ≡ links s
unfolding set_priority
set_priority-links a kept c s st h = rw (get_context-some a c s st h) refl

pub if-links :
    {A : Type 0} (f : A → Links) (b : Bool) (x y : A) (l : Links)
    → f x ≡ l
    → f y ≡ l
    → f (if b then x else y) ≡ l
if-links f true x y l h k = h
if-links f false x y l h k = k

-- the same links, the same context
pub context-links :
    (s u : Span) (c : Context) → links u ≡ links s → s.context ≡ some c → u.context ≡ some c
context-links s u c e h = ap (λ (l : Links). l.context) e ∙ h

module _ (show_float : ℤ → ℕ → Text) (read_float : Text → Option Number) (a : ℕ) where
  with_user_priority-links :
      (p : ℤ) (c : Context) (s : Span) (st : Store)
      → s.context ≡ some c
      → links (with_user_priority show_float read_float a p s st).0 ≡ links s
  with_user_priority-links p c s st h = rw (get_context-some a c s st h) refl

  set_numeric-links :
      (k : String) (v : Value) (s : Span)
      → links (set_numeric show_float read_float a k v s) ≡ links s
  unfolding set_metric
  set_numeric-links k nothing s = refl
  set_numeric-links k (number n) s = refl
  set_numeric-links k (text t) s = elim (Option-cases (read_float t)) [
    | inl e ↦ rw (e, set_numeric) refl
    | inr (n, e) ↦ rw (e, set_numeric) refl
  ]

  set_by_key-links :
      (again : Value → Span → Span) (k : String) (v : Value) (c : Context) (s : Span) (st : Store)
      → s.context ≡ some c
      → ((w : Value) (u : Span) → links (again w u) ≡ links u)
      → links (set_by_key show_float read_float a again k v s st).0 ≡ links s
  unfolding set_by_key set_text set_metric
  set_by_key-links again k v c s st h versioned =
      if-links (λ (r : Span × Store). links r.0) (k == analytics_key) _ _ (links s)
        (set_numeric-links k v s)
        (if-links (λ (r : Span × Store). links r.0) (k == manual_keep_key) _ _ (links s)
          (with_user_priority-links (pos 2) c s st h)
          (if-links (λ (r : Span × Store). links r.0) (k == manual_drop_key) _ _ (links s)
            (with_user_priority-links (negsuc 0) c s st h)
            (if-links (λ (r : Span × Store). links r.0) (k == service_name_key) _ _ (links s) refl
              (if-links (λ (r : Span × Store). links r.0) (k == service_version_key) _ _ (links s)
                (versioned v s)
                (if-links (λ (r : Span × Store). links r.0) (k == measured_key) _ _ (links s) refl
                  refl)))))

  set_converted-links :
      (k : String) (v : Value) (c : Context) (s : Span) (st : Store)
      → s.context ≡ some c
      → links (set_converted show_float read_float a k v s st).0 ≡ links s
  unfolding set_text set_metric
  set_converted-links k nothing c s st h = set_by_key-links _ k nothing c s st h (λ w u. refl)
  set_converted-links k (text t) c s st h = set_by_key-links _ k (text t) c s st h (λ w u. refl)
  set_converted-links k (number (float n d)) c s st h = refl
  set_converted-links k (number (int i)) c s st h =
      if-links (λ (r : Span × Store). links r.0) (is_small i) _ _ (links s) refl
        (set_by_key-links _ k (number (int i)) c s st h (λ w u. refl))

  pub set_tag-links :
      (k : String) (v : Value) (c : Context) (s : Span) (st : Store)
      → s.context ≡ some c
      → links (set_tag show_float read_float a k v s st).0 ≡ links s
  unfolding set_tag
  set_tag-links k v c s st h =
      set_converted-links k (converted show_float read_float a k v) c s st h

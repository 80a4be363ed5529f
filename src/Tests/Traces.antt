-- ===== src/Tests/Traces.antt =====
-- Contexts, headers and spans at fixed inputs.
use dd_trace_py.Base.{
  ℕ, ◌≡◌, ◌≢◌, suc, ◌==◌, string_eq, nat_eq, beq_refl, ap, refl, List, [], ◌∷◌, Bool, true, false,
  arith, some, none, Option, not, inl, String,
}
use dd_trace_py.Base.Int.{ℤ, pos}
use dd_trace_py.Base.Text.{Text, codes}
use dd_trace_py.Base.Dict.{Dict}
use dd_trace_py.Context.{
  Store, Context, int, no_tags, set_sampling_priority, sampling_priority, with_span, dd_origin,
}
use dd_trace_py.Context.Sharing.{set_sampling_priority_shared}
use dd_trace_py.Propagation.{inject, extract}
use dd_trace_py.Propagation.RoundTrip.{IsClean, extract-inject}
use dd_trace_py.Span.{Span, init}
use dd_trace_py.Base.{◌^◌, ◌⊎◌}
use dd_trace_py.Context.{Number}

abbrev pub store : Store
store a = no_tags

abbrev pub here : Context
here = record { trace_id = some (pos 12); span_id = some (pos 34); tags = 1 }

abbrev elsewhere : Context
elsewhere = record { trace_id = some (pos 12); span_id = some (pos 34); tags = 2 }

abbrev rootless : Context
rootless = record { trace_id = some (pos 12); span_id = none; tags = 1 }

two_ne_one : ◌≢◌ {A = ℕ} 2 1
two_ne_one h = omega (arith, h)

set_sampling_priority_shared_example :
    let st' = set_sampling_priority (with_span here (pos 1) (pos 2)) (some (int (pos 2))) store in
    (sampling_priority st' (with_span here (pos 3) (pos 4)) ≡ some (int (pos 2)))
    × (dd_origin st' (with_span here (pos 3) (pos 4)) ≡ dd_origin store here)
    × (sampling_priority st' elsewhere ≡ sampling_priority store elsewhere)
set_sampling_priority_shared_example =
    set_sampling_priority_shared store here (pos 1) (pos 2) (pos 3) (pos 4) (some (int (pos 2)))
      elsewhere two_ne_one

abbrev pub headers : Dict Text Text
headers = (codes "Accept", codes "text/html") ∷ []

pub headers-IsClean : IsClean headers
unfolding dd_trace_py.Base.Text.lower dd_trace_py.Propagation.get_wsgi_header
headers-IsClean = record {
  trace_id = (refl, tt);
  parent_id = (refl, tt);
  priority = (refl, tt);
  origin = (refl, tt);
  wsgi_trace_id = (refl, tt);
  wsgi_parent_id = (refl, tt);
  wsgi_priority = (refl, tt);
  wsgi_origin = (refl, tt);
}

abbrev pub decimal : ℤ → ℕ → Text
decimal num den = codes "0.5"

abbrev pub plain_first : Text → Bool
plain_first name = false

pos_ne : (n : ℕ) → pos (suc n) ≢ pos 0
pos_ne n h = cc h

extract-inject_example :
    let (d, st') = extract plain_first 7 (inject decimal store here headers) store in
    (d.trace_id ≡ some (pos 12))
    × (d.span_id ≡ some (pos 34))
    × (sampling_priority st' d ≡ sampling_priority store here)
    × (dd_origin st' d ≡ dd_origin store here)
unfolding sampling_priority dd_trace_py.Base.Dict.lookup
extract-inject_example =
    extract-inject decimal plain_first 7 store store here headers headers-IsClean (pos 12) (pos 34)
      refl refl (pos_ne 11) (pos_ne 33) tt

abbrev span : Span
span =
    init
      (record {
        name = codes "web.request";
        service = some (codes "web");
        resource = none;
        span_type = none;
        trace_id = some 12;
        span_id = some 34;
        parent_id = none;
        start_ns = some 100;
        context = none;
      })
      0 1 2

string_ne : (k j : String) → (k == j) ≡ false → k ≢ j
string_ne k j e h = cc (e, beq_refl j, ap (λ s. s == j) h)

abbrev no_float : Text → Option Number
no_float t = none

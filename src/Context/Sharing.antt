-- ===== src/Context/Sharing.antt =====
-- Contexts of one trace see each other's sampling priority and origin, and no other context does.
use dd_trace_py.Base.{ℕ, ◌≡◌, ◌≢◌, refl, Option, none, some, nat_eq, string_eq}
use dd_trace_py.Base.Int.{ℤ}
use dd_trace_py.Base.Text.{Text}
use dd_trace_py.Base.Dict.{lookup, insert, lookup-insert, lookup-erase}
use dd_trace_py.Context.{
  Number, Tags, Store, Context, write_self, write_ne, sampling_priority, set_sampling_priority,
  with_priority, dd_origin, set_dd_origin, with_origin, with_span, new_context,
  sampling_priority_key, origin_key,
}

priority-with_priority :
    (v : Option Number) (t : Tags) → lookup sampling_priority_key (with_priority v t).metrics ≡ v
unfolding with_priority
priority-with_priority none t = rw lookup-erase
priority-with_priority (some v) t = rw lookup-insert

origin-with_origin : (v : Option Text) (t : Tags) → lookup origin_key (with_origin v t).meta ≡ v
unfolding with_origin
origin-with_origin none t = rw lookup-erase
origin-with_origin (some v) t = rw lookup-insert

-- what a context was given last is what it reads
pub sampling_priority-set :
    (st : Store) (c : Context) (v : Option Number)
    → sampling_priority (set_sampling_priority c v st) c ≡ v
unfolding set_sampling_priority sampling_priority
sampling_priority-set st c v = rw write_self (priority-with_priority v (st c.tags))

meta-with_priority : (v : Option Number) (t : Tags) → (with_priority v t).meta ≡ t.meta
unfolding with_priority
meta-with_priority none t = refl
meta-with_priority (some v) t = refl

metrics-with_origin : (v : Option Text) (t : Tags) → (with_origin v t).metrics ≡ t.metrics
unfolding with_origin
metrics-with_origin none t = refl
metrics-with_origin (some v) t = refl

-- A priority set on the context of one span, `None` included, is what the context of any span of
-- the trace reads afterwards; the origin stays; and a context with other dicts reads what it read.
pub set_sampling_priority_shared :
    (st : Store) (c : Context) (t1 s1 t2 s2 : ℤ) (v : Option Number) (d : Context)
    → d.tags ≢ c.tags
    → let st' = set_sampling_priority (with_span c t1 s1) v st in
      (sampling_priority st' (with_span c t2 s2) ≡ v)
      × (dd_origin st' (with_span c t2 s2) ≡ dd_origin st c)
      × (sampling_priority st' d ≡ sampling_priority st d)
unfolding set_sampling_priority sampling_priority dd_origin with_span
set_sampling_priority_shared st c t1 s1 t2 s2 v d h = (
  rw write_self (priority-with_priority v (st c.tags)),
  rw (write_self, meta-with_priority v (st c.tags)),
  rw (write_ne c.tags d.tags (with_priority v (st c.tags)) st h),
)

-- The same of the origin.
pub set_dd_origin_shared :
    (st : Store) (c : Context) (t1 s1 t2 s2 : ℤ) (v : Option Text) (d : Context)
    → d.tags ≢ c.tags
    → let st' = set_dd_origin (with_span c t1 s1) v st in
      (dd_origin st' (with_span c t2 s2) ≡ v)
      × (sampling_priority st' (with_span c t2 s2) ≡ sampling_priority st c)
      × (dd_origin st' d ≡ dd_origin st d)
unfolding set_dd_origin sampling_priority dd_origin with_span
set_dd_origin_shared st c t1 s1 t2 s2 v d h = (
  rw write_self (origin-with_origin v (st c.tags)),
  rw (write_self, metrics-with_origin v (st c.tags)),
  rw (write_ne c.tags d.tags (with_origin v (st c.tags)) st h),
)

-- A new context reads back the priority and the origin that it was given.
pub new_context_reads :
    (a : ℕ) (trace_id span_id : Option ℤ) (origin : Option Text) (priority : Option Number)
    (st : Store)
    → let (c, st') = new_context a trace_id span_id origin priority st in
      (sampling_priority st' c ≡ priority) × (dd_origin st' c ≡ origin)
unfolding new_context sampling_priority dd_origin with_priority with_origin lookup insert
new_context_reads a trace_id span_id none none st = rw write_self (refl, refl)
new_context_reads a trace_id span_id none (some p) st = rw write_self (refl, refl)
new_context_reads a trace_id span_id (some o) none st = rw write_self (refl, refl)
new_context_reads a trace_id span_id (some o) (some p) st = rw write_self (refl, refl)

-- ===== src/Logger.antt =====
-- ddtrace/internal/logger.py: DDLogger, which lets one record through for each place in the code
-- and time bucket. A time is a natural number of ticks, `res` to the second; the rate limit is a
-- natural number of seconds. The texts of a record play no part, so a record is its key and time.
use dd_trace_py.Base.{
  ℕ, ◌+◌, ◌*◌, ◌/◌, ◌≡◌, refl, arith, Bool, true, ◌||◌, Option, none, some, List, [], ◌∷◌,
  string_eq, nat_eq, ◌==◌, if◌then◌else◌, Bool-cases, inl, inr, Eq, ap,
}
use dd_trace_py.Base.Dict.{Dict, lookup, insert, lookup-insert}

-- `LoggingBucket`
pub record LoggingBucket : Type 0 where
  pub bucket : ℕ
  pub skipped : ℕ

-- A log record: the key is its name, level, path and line.
pub record LogRecord {κ} (K : Type κ) : Type κ where
  pub key : K
  pub created : ℕ

abbrev or_new : Option LoggingBucket → LoggingBucket
or_new none = record { bucket = 0; skipped = 0 }
or_new (some b) = b

-- What the base class is given: the record, and the count of skipped ones that its message tells.
pub record Emitted {κ} (K : Type κ) : Type κ where
  pub key : K
  pub told : ℕ

module _ {κ} {K : Type κ} ⦃keys : Eq K⦄ (res rate_limit : ℕ) (is_debug : Bool) where
  abbrev pub bucket_at : K → Dict K LoggingBucket → LoggingBucket
  bucket_at k d = or_new (lookup k d)

  -- `handle`: the buckets, and what the base class handles, if anything
  unfoldable pub handle :
      LogRecord K → Dict K LoggingBucket → Dict K LoggingBucket × Option (Emitted K)
  handle r d =
      let current = r.created / (rate_limit * res) in
      let b = bucket_at r.key d in
      if rate_limit == 0 || is_debug
      then (d, some (record { key = r.key; told = 0 }))
      else if b.bucket == current
      then (insert r.key (record { bucket = b.bucket; skipped = b.skipped + 1 }) d, none)
      else (
        insert r.key (record { bucket = current; skipped = 0 }) d,
        some (record { key = r.key; told = b.skipped }),
      )

  -- the records of `k` that were let through or are told of
  abbrev pub told_of : K → Option (Emitted K) → ℕ
  told_of k none = 0
  told_of k (some e) = if e.key == k then 1 + e.told else 0

  abbrev pub run : List (LogRecord K) → Dict K LoggingBucket → Dict K LoggingBucket
  run [] d = d
  run (r ∷ records) d = run records (handle r d).0

  abbrev pub told : K → List (LogRecord K) → Dict K LoggingBucket → ℕ
  told k [] d = 0
  told k (r ∷ records) d = told_of k (handle r d).1 + told k records (handle r d).0

  abbrev pub handled : K → List (LogRecord K) → ℕ
  handled k [] = 0
  handled k (r ∷ records) = (if r.key == k then 1 else 0) + handled k records

  handle-told :
      (k : K) (r : LogRecord K) (d : Dict K LoggingBucket)
      → told_of k (handle r d).1 + (bucket_at k (handle r d).0).skipped
        ≡ (if r.key == k then 1 else 0) + (bucket_at k d).skipped
  unfolding handle
  handle-told k r d = elim (Bool-cases (rate_limit == 0 || is_debug)) [
    | inl f ↦ rw f (omega arith)
    | inr f ↦ elim (Bool-cases ((bucket_at r.key d).bucket == r.created / (rate_limit * res))) [
      | inl b ↦ elim (Bool-cases (r.key == k)) [
        | inl g ↦ rw (f, b, lookup-insert, g) (omega (arith, same g))
        | inr g ↦ rw (f, b, lookup-insert, g) refl
      ]
      | inr b ↦ elim (Bool-cases (r.key == k)) [
        | inl g ↦ rw (f, b, lookup-insert, g) (omega (arith, same g))
        | inr g ↦ rw (f, b, lookup-insert, g) refl
      ]
    ]
  ]
    where
      same : (r.key == k) ≡ true → (bucket_at r.key d).skipped ≡ (bucket_at k d).skipped
      same g = ap (λ j. (bucket_at j d).skipped) ((keys.beq_iff r.key k).0 g)

  -- Every record of a key is accounted for: it was let through, or a later one told of it, or it is
  -- still in the count of its bucket. Nothing is counted twice, whatever the other keys do.
  pub run-told :
      (k : K) (records : List (LogRecord K)) (d : Dict K LoggingBucket)
      → told k records d + (bucket_at k (run records d)).skipped
        ≡ handled k records + (bucket_at k d).skipped
  run-told k [] d = refl
  run-told k (r ∷ records) d = omega (arith, handle-told k r d, run-told k records (handle r d).0)

-- ===== src/Recorder/Exports.antt =====
-- ddtrace/profiling/scheduler.py: the exports of a scheduler, round by round.
use dd_trace_py.Base.{
  ℕ, ◌<◌, ◌≡◌, refl, ap, ◌∙◌, arith, false, Option, none, some, List, [], ◌∷◌, ◌++◌, map, nat_eq,
}
use dd_trace_py.Base.Dict.{lookup}
use dd_trace_py.Recorder.{Scheduler, Export, flush, reset, limit, last_of, or_empty}
use dd_trace_py.Recorder.Queues.{Use, use_all, pushed, Shows, use_all-Shows}

abbrev add : {A : Type 0} → Option (Export A) → List (Export A) → List (Export A)
add none l = l
add (some e) l = e ∷ l

module _ {A : Type 0} (kind : A → ℕ) where
  -- A round: what happens to the recorder, and the time of the flush after it.
  abbrev pub Round : Type 0
  Round = List (Use A) × ℕ

  abbrev recorded : List (Use A) → Scheduler A → Scheduler A
  recorded us s = record s { recorder = use_all kind us s.recorder }

  abbrev pub run : List Round → Scheduler A → Scheduler A × List (Export A)
  run [] s = (s, [])
  run ((us, now) ∷ rounds) s =
      let (s', o) = flush now (recorded us s) in let (s'', l) = run rounds s' in (s'', add o l)

  -- A flush with an exporter.
  flushed :
      (now : ℕ) (s : Scheduler A)
      → 0 < s.exporters
      → flush now s ≡ (
        record s { recorder = (reset s.recorder).1; last_export = now },
        some (record { events = s.recorder.events; start = s.last_export; stop = now }),
      )
  unfolding flush reset
  flushed now s h = ground (arith, h)

  run_from :
      (k n : ℕ) (rounds : List Round) (s : Scheduler A)
      → 0 < s.exporters
      → Shows kind k n s.recorder []
      → (map (λ (e : Export A). or_empty (lookup k e.events)) (run rounds s).1
          ≡ map (λ (r : Round). last_of n (pushed kind k r.0 [])) rounds)
        × (map (λ (e : Export A). e.start) (run rounds s).1 ++ ((run rounds s).0.last_export ∷ [])
            ≡ s.last_export ∷ map (λ (e : Export A). e.stop) (run rounds s).1)
  unfolding reset lookup
  run_from k n [] s some_exporter h = (refl, refl)
  run_from k n ((us, now) ∷ rounds) s some_exporter h =
      let s0 = recorded us s in
      let after = use_all-Shows kind k n us s.recorder [] h in
      let s1 = record s0 { recorder = (reset s0.recorder).1; last_export = now } in
      let (contents, times) =
        run_from k n rounds s1 some_exporter
          (record { working = after.working; limited = after.limited; held = refl }) in
      rw (flushed now s0 some_exporter) (
        ap
              (λ (q : List A).
                q ∷ map (λ (e : Export A). or_empty (lookup k e.events)) (run rounds s1).1)
              after.held
            ∙ ap (λ (l : List (List A)). last_of n (pushed kind k us []) ∷ l) contents,
        ap (λ (l : List ℕ). s.last_export ∷ l) times,
      )

  -- With an exporter, a recorder that starts empty and no fork, each export has for each kind exactly
  -- the last events of its own round, as many as the limit allows; and the times of the exports join
  -- up without a gap: each starts where the one before stopped, the first at the last export
  -- before the rounds.
  pub run_lem :
      (k : ℕ) (rounds : List Round) (s : Scheduler A)
      → 0 < s.exporters
      → s.recorder.forked ≡ false
      → s.recorder.events ≡ []
      → (map (λ (e : Export A). or_empty (lookup k e.events)) (run rounds s).1
          ≡ map (λ (r : Round). last_of (limit k s.recorder) (pushed kind k r.0 [])) rounds)
        × (map (λ (e : Export A). e.start) (run rounds s).1 ++ ((run rounds s).0.last_export ∷ [])
            ≡ s.last_export ∷ map (λ (e : Export A). e.stop) (run rounds s).1)
  unfolding lookup
  run_lem k rounds s some_exporter working empty =
      run_from k (limit k s.recorder) rounds s some_exporter
        (record { working = working; limited = refl; held = ap (λ d. or_empty (lookup k d)) empty })

-- ===== src/Span/Tagging/Reads.antt =====
-- What `set_tag` leaves to be read.
use dd_trace_py.Base.{
  ℕ, ◌≡◌, ◌∙◌, ap, Option-cases, ◌⊎◌, inl, inr, refl, arith, Bool, true, false, ◌||◌, Option, none,
  some, String, string_eq, ◌==◌, Bool-cases, beq_refl,
}
use dd_trace_py.Base.Int.{ℤ, pos, negsuc}
use dd_trace_py.Base.Text.{Text}
use dd_trace_py.Base.Decimal.{show_int}
use dd_trace_py.Base.Dict.{lookup-insert, lookup-erase}
use dd_trace_py.Context.{Store, Number, int, sampling_priority}
use dd_trace_py.Context.Sharing.{sampling_priority-set}
use dd_trace_py.Span.{Span, set_metric, get_metric, get_tag, get_context, measured_key}
use dd_trace_py.Span.Tagging.{
  Value, nothing, number, text, set_tag, set_text, set_by_key, converted, set_converted,
  with_user_priority, is_small, analytics_key, manual_keep_key, manual_drop_key, service_name_key,
  service_version_key, status_code_key, str,
}

-- The keys that `set_tag` treats in a way of their own, whatever number they are given.
abbrev pub is_special : String → Bool
is_special key =
    (key == status_code_key)
    || ((key == analytics_key)
        || ((key == manual_keep_key)
            || ((key == manual_drop_key)
                || ((key == service_name_key)
                    || ((key == service_version_key) || (key == measured_key))))))

module _ (show_float : ℤ → ℕ → Text) (read_float : Text → Option Number) (a : ℕ) where
  converted-int :
      (key : String) (i : ℤ)
      → is_special key ≡ false
      → converted show_float read_float a key (number (int i)) ≡ number (int i)
  converted-int key i h = ground (arith, h)

  set_by_key-ordinary :
      (again : Value → Span → Span) (key : String) (v : Value) (s : Span) (st : Store)
      → is_special key ≡ false
      → set_by_key show_float read_float a again key v s st
        ≡ (set_text show_float read_float a key v s, st)
  unfolding set_by_key
  set_by_key-ordinary again key v s st h = ground (arith, h)

  text-alone :
      (key : String) (v : Value) (s : Span)
      → (get_tag key (set_text show_float read_float a key v s)
          ≡ some (str show_float read_float a v))
        × (get_metric key (set_text show_float read_float a key v s) ≡ none)
  unfolding get_tag get_metric set_text
  text-alone key v s = (simp (lookup-insert, beq_refl), simp (lookup-erase, beq_refl))

  metric-alone :
      (key : String) (n : Number) (s : Span)
      → (key == measured_key) ≡ false
      → (get_metric key (set_metric key n s) ≡ some n) × (get_tag key (set_metric key n s) ≡ none)
  unfolding get_tag get_metric set_metric
  metric-alone key n s h = rw h (simp (lookup-insert, beq_refl), simp (lookup-erase, beq_refl))

  set_tag-small :
      (key : String) (i : ℤ) (s : Span) (st : Store)
      → is_special key ≡ false
      → is_small i ≡ true
      → set_tag show_float read_float a key (number (int i)) s st ≡ (set_metric key (int i) s, st)
  unfolding set_tag
  set_tag-small key i s st h e =
      ap (λ w. set_converted show_float read_float a key w s st) (converted-int key i h) ∙ rw e refl

  set_tag-large :
      (key : String) (i : ℤ) (s : Span) (st : Store)
      → is_special key ≡ false
      → is_small i ≡ false
      → set_tag show_float read_float a key (number (int i)) s st
        ≡ (set_text show_float read_float a key (number (int i)) s, st)
  unfolding set_tag
  set_tag-large key i s st h e =
      ap (λ w. set_converted show_float read_float a key w s st) (converted-int key i h)
      ∙ rw e (set_by_key-ordinary _ key (number (int i)) s st h)

  -- An int given for a key without a meaning of its own is kept exactly, in one of two places and
  -- not in the other: as a metric if it has at most 53 bits, which a float holds exactly, and
  -- otherwise as a text tag of its decimal digits, whatever stood there before.
  pub set_tag-int :
      (key : String) (i : ℤ) (s : Span) (st : Store)
      → is_special key ≡ false
      → let s' = (set_tag show_float read_float a key (number (int i)) s st).0 in
        ((is_small i ≡ true) × (get_metric key s' ≡ some (int i)) × (get_tag key s' ≡ none))
        ⊎ ((is_small i ≡ false) × (get_metric key s' ≡ none) × (get_tag key s' ≡ some (show_int i)))
  set_tag-int key i s st h = elim (Bool-cases (is_small i)) [
    | inl e ↦
        let (metric, tag) = metric-alone key (int i) s (ground (arith, h)) in
        inl (e, rw (set_tag-small key i s st h e) metric, rw (set_tag-small key i s st h e) tag)
    | inr e ↦
        let (tag, metric) = text-alone key (number (int i)) s in
        inr (e, rw (set_tag-large key i s st h e) metric, rw (set_tag-large key i s st h e) tag)
  ]

  -- Setting a priority through the context of a span, and reading it through that span.
  with_user_priority-reads :
      (p : ℤ) (s : Span) (st : Store)
      → let (s', st') = with_user_priority show_float read_float a p s st in
        (sampling_priority st' (get_context a s' st').0 ≡ some (int p)) × (s'.tags ≡ s.tags)
  unfolding get_context
  with_user_priority-reads p s st = elim (Option-cases s.context) [
    | inl e ↦ rw e (sampling_priority-set _ _ (some (int p)), refl)
    | inr (c, e) ↦ rw e (sampling_priority-set _ _ (some (int p)), refl)
  ]

  -- A text or None for the key `manual.keep` makes the sampling priority of the span's context 2,
  -- the user's decision to keep, and for `manual.drop` makes it -1, whatever it was; the span's tags
  -- stay.
  pub set_tag-manual :
      (v : Value) (s : Span) (st : Store)
      → (v ≡ nothing) ⊎ ((t : Text) × (v ≡ text t))
      → let (kept, st1) = set_tag show_float read_float a manual_keep_key v s st in
        let (dropped, st2) = set_tag show_float read_float a manual_drop_key v s st in
        (sampling_priority st1 (get_context a kept st1).0 ≡ some (int (pos 2)))
        × (kept.tags ≡ s.tags)
        × (sampling_priority st2 (get_context a dropped st2).0 ≡ some (int (negsuc 0)))
        × (dropped.tags ≡ s.tags)
  unfolding set_tag set_by_key
  set_tag-manual nothing s st h =
      let (p, tags) = with_user_priority-reads (pos 2) s st in
      let (q, tags') = with_user_priority-reads (negsuc 0) s st in (p, tags, q, tags')
  set_tag-manual (text t) s st h =
      let (p, tags) = with_user_priority-reads (pos 2) s st in
      let (q, tags') = with_user_priority-reads (negsuc 0) s st in (p, tags, q, tags')
  set_tag-manual (number n) s st h = absurd (ground (arith, h))

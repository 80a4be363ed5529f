-- ===== src/Settings/Coherent.antt =====
-- ddtrace/settings: the caches of the header tags never show, through any changes of the whitelists.
use dd_trace_py.Base.{
  Bool, true, false, ◌||◌, ◌==◌, ◌≡◌, refl, ◌∙◌, sym, ap, Option, none, some, List, [], ◌∷◌,
  codes_eq, map, if◌then◌else◌, Bool-cases, Option-cases, inl, inr,
}
use dd_trace_py.Base.Dict.{Dict, lookup, insert, contains, lookup-insert}
use dd_trace_py.Base.Text.{Text}
use dd_trace_py.Base.Updates.{or_else, literal}
use dd_trace_py.Cache.Method.{change, IsFresh, new_object-IsFresh, change-IsFresh, call-IsFresh}
use dd_trace_py.Settings.{
  normalize_header_name, HttpConfig, header_tag_name_body, new_http_config, header_tag_name,
  Whitelist, entries, whitelisted, trace_headers, trace_entries, Configs, tag_name_for,
  or_everywhere,
}

-- What is done with the two configurations, in order
pub data Use : Type 0 where
  asks : Text → Use
  traces : Whitelist → Use
  traces_everywhere : Whitelist → Use

abbrev pub run : List Use → Configs → List (Option (Option Text))
run [] c = []
run (asks name ∷ uses) c = (tag_name_for name c).0 ∷ run uses (tag_name_for name c).1
run (traces w ∷ uses) c = run uses (record c { integration = trace_headers w c.integration })
run (traces_everywhere w ∷ uses) c =
    run uses (record c { everywhere = trace_headers w c.everywhere })

abbrev pub found : Text → Dict Text Text → Option Text
found name tags = lookup (normalize_header_name name) tags

-- What a listed name gets once it is normalised: one that is empty is passed over.
abbrev pub is_added : Text → Text → Bool
is_added [] name = false
is_added (c ∷ entry) name = (c ∷ entry) == name

abbrev pub is_listed : List Text → Text → Bool
is_listed [] name = false
is_listed (entry ∷ rest) name = is_added (normalize_header_name entry) name || is_listed rest name

-- The tag of each normalised name after a whitelist: the one that it has, and else the empty one
-- where it is listed.
abbrev pub listing : List Text → (Text → Option Text) → Text → Option Text
listing es tags name = or_else (tags name) (if is_listed es name then some [] else none)

-- The answers, from the tag of each normalised name
abbrev pub expected : List Use → (own shared : Text → Option Text) → List (Option (Option Text))
expected [] own shared = []
expected (asks name ∷ uses) own shared =
    let key = normalize_header_name name in
    some (or_else (own key) (shared key)) ∷ expected uses own shared
expected (traces w ∷ uses) own shared = expected uses (listing (entries w) own) shared
expected (traces_everywhere w ∷ uses) own shared = expected uses own (listing (entries w) shared)

abbrev pub tag_in : Dict Text Text → Text → Option Text
tag_in tags name = lookup name tags

or_else-none : (o : Option Text) → or_else o none ≡ o
or_else-none none = refl
or_else-none (some t) = refl

added-lookup :
    (entry : Text) (tags : Dict Text Text) (name : Text)
    → lookup name (if contains entry tags then tags else insert entry [] tags)
      ≡ or_else (lookup name tags) (if entry == name then some [] else none)
added-lookup entry tags name = elim (Option-cases (lookup entry tags)) [
  | inl missing ↦ elim (Bool-cases (entry == name)) [
    | inl same ↦
        rw
          (
            missing,
            lookup-insert {V = Text} entry name [] tags,
            same,
            sym ((codes_eq.beq_iff entry name).0 same),
            missing,
          )
          refl
    | inr other ↦
        rw (missing, lookup-insert {V = Text} entry name [] tags, other)
          (sym (or_else-none (lookup name tags)))
  ]
  | inr (tag, there) ↦ elim (Bool-cases (entry == name)) [
    | inl same ↦ rw (there, sym ((codes_eq.beq_iff entry name).0 same), there) refl
    | inr other ↦ rw (there, other) (sym (or_else-none (lookup name tags)))
  ]
]

or_else_assoc :
    (o : Option Text) (b c : Bool)
    → or_else (or_else o (if b then some [] else none)) (if c then some [] else none)
      ≡ or_else o (if b || c then some [] else none)
or_else_assoc none true c = refl
or_else_assoc none false c = refl
or_else_assoc (some t) b c = refl

whitelisted-cons :
    (entry : Text) (rest : List Text) (tags : Dict Text Text) (name key : Text)
    → normalize_header_name entry ≡ key
    → ((tags' : Dict Text Text)
        → lookup name (whitelisted rest tags') ≡ listing rest (tag_in tags') name)
    → lookup name (whitelisted (entry ∷ rest) tags) ≡ listing (entry ∷ rest) (tag_in tags) name
unfolding whitelisted
whitelisted-cons entry rest tags name [] e after = rw (e, whitelisted) (after tags)
whitelisted-cons entry rest tags name (c ∷ key) e after =
    rw (e, whitelisted)
      (after _
        ∙ ap (λ o. or_else o (if is_listed rest name then some [] else none))
            (added-lookup (c ∷ key) tags name)
        ∙ or_else_assoc (lookup name tags) ((c ∷ key) == name) (is_listed rest name))

lookup-whitelisted :
    (es : List Text) (tags : Dict Text Text) (name : Text)
    → lookup name (whitelisted es tags) ≡ listing es (tag_in tags) name
unfolding whitelisted
lookup-whitelisted [] tags name = sym (or_else-none (lookup name tags))
lookup-whitelisted (entry ∷ rest) tags name =
    whitelisted-cons entry rest tags name (normalize_header_name entry) refl
      (λ tags'. lookup-whitelisted rest tags' name)

body-found :
    (tags : Dict Text Text) (q : Option Bool) (name : Text)
    → header_tag_name_body (record { header_tags = tags; trace_query_string = q }) name
      ≡ some (found name tags)
unfolding header_tag_name_body lookup
body-found [] q name = refl
body-found (e ∷ tags) q name = refl

-- The configuration has these tags, and its cache holds nothing else.
record IsRight (tags : Text → Option Text) (c : HttpConfig) : Type 0 where
  same : (name : Text) → lookup name c.state.header_tags ≡ tags name
  fresh : IsFresh header_tag_name_body 256 c

header_tag_name-IsRight :
    (name : Text) (tags : Text → Option Text) (c : HttpConfig)
    → IsRight tags c
    → ((header_tag_name name c).0 ≡ some (tags (normalize_header_name name)))
      × IsRight tags (header_tag_name name c).1
unfolding header_tag_name
header_tag_name-IsRight name tags c h =
    let (v, (same, fresh)) = call-IsFresh header_tag_name_body 256 name c h.fresh in
    (
      v
          ∙ body-found c.state.header_tags c.state.trace_query_string name
          ∙ ap some (h.same (normalize_header_name name)),
      record { same = λ k. ap (λ s. lookup k s.header_tags) same ∙ h.same k; fresh = fresh },
    )

trace_entries-IsRight :
    (es : List Text) (tags : Text → Option Text) (c : HttpConfig)
    → IsRight tags c
    → IsRight (listing es tags) (trace_entries es c)
unfolding trace_entries change
trace_entries-IsRight [] tags c h = record {
  same = λ k. h.same k ∙ sym (or_else-none (tags k));
  fresh = h.fresh;
}
trace_entries-IsRight (e ∷ es) tags c h = record {
  same = λ k.
      lookup-whitelisted (e ∷ es) c.state.header_tags k
      ∙ ap (λ o. or_else o (if is_listed (e ∷ es) k then some [] else none)) (h.same k);
  fresh =
      change-IsFresh header_tag_name_body 256
        (λ s. record s { header_tags = whitelisted (e ∷ es) s.header_tags }) c;
}

or_everywhere-IsRight :
    (own : Option Text) (name : Text) (tags shared : Text → Option Text) (c : Configs)
    → IsRight tags c.integration
    → IsRight shared c.everywhere
    → ((or_everywhere (some own) name c).0
        ≡ some (or_else own (shared (normalize_header_name name))))
      × (IsRight tags (or_everywhere (some own) name c).1.integration
          × IsRight shared (or_everywhere (some own) name c).1.everywhere)
or_everywhere-IsRight none name tags shared c h h' =
    let (v, right) = header_tag_name-IsRight name shared c.everywhere h' in (v, (h, right))
or_everywhere-IsRight (some tag) name tags shared c h h' = (refl, (h, h'))

tag_name_for-IsRight :
    (name : Text) (tags shared : Text → Option Text) (c : Configs)
    → IsRight tags c.integration
    → IsRight shared c.everywhere
    → ((tag_name_for name c).0
        ≡ some (or_else (tags (normalize_header_name name)) (shared (normalize_header_name name))))
      × (IsRight tags (tag_name_for name c).1.integration
          × IsRight shared (tag_name_for name c).1.everywhere)
unfolding tag_name_for
tag_name_for-IsRight name tags shared c h h' =
    let (v, right) = header_tag_name-IsRight name tags c.integration h in
    rw v (
      or_everywhere-IsRight (tags (normalize_header_name name)) name tags shared
        (record c { integration = (header_tag_name name c.integration).1 }) right h')

run-expected :
    (uses : List Use) (tags shared : Text → Option Text) (c : Configs)
    → IsRight tags c.integration
    → IsRight shared c.everywhere
    → run uses c ≡ expected uses tags shared
unfolding trace_headers
run-expected [] tags shared c h h' = refl
run-expected (asks name ∷ uses) tags shared c h h' =
    let (v, (right, right')) = tag_name_for-IsRight name tags shared c h h' in
    rw (v, run-expected uses tags shared (tag_name_for name c).1 right right') refl
run-expected (traces w ∷ uses) tags shared c h h' =
    run-expected uses _ shared _ (trace_entries-IsRight (entries w) tags c.integration h) h'
run-expected (traces_everywhere w ∷ uses) tags shared c h h' =
    run-expected uses tags _ _ h (trace_entries-IsRight (entries w) shared c.everywhere h')

abbrev pub normalized : Dict Text Text → Dict Text Text
normalized tags = literal (map (λ e. (normalize_header_name e.0, e.1)) tags)

-- From new configurations with any header tags, through any sequence of questions and of
-- whitelists for the integration or for all, `_header_tag_name` answers what the tags at that
-- moment have for the normalised name, those of the integration first. No answer is kept from
-- before a whitelist. A whitelist gives the empty tag to each name that it lists, normalised and
-- not empty, and that has no tag yet; every other name keeps what it has.
pub tag_name_for-current :
    (own shared : Dict Text Text) (uses : List Use)
    → run uses (record { integration = new_http_config own; everywhere = new_http_config shared })
      ≡ expected uses (tag_in (normalized own)) (tag_in (normalized shared))
unfolding new_http_config
tag_name_for-current own shared uses =
    run-expected uses _ _ _
      (record { same = λ k. refl; fresh = new_object-IsFresh header_tag_name_body 256 _ })
      (record { same = λ k. refl; fresh = new_object-IsFresh header_tag_name_body 256 _ })

-- ===== src/Formats/RoundTrip.antt =====
-- ddtrace/utils/formats.py: `parse_tags_str` reads back the tags of a text.
use dd_trace_py.Base.{
  ℕ, ◌+◌, ◌≡◌, ◌≢◌, refl, ◌∙◌, sym, ap, arith, Bool, true, false, ◌||◌, some, List, [], ◌∷◌, ◌++◌,
  codes_eq, nat_beq, nat_eq, All, map, append_assoc, append-nil,
}
use dd_trace_py.Base.Dict.{Dict, insert, update}
use dd_trace_py.Base.Text.{Text}
use dd_trace_py.Base.Strings.{split, join, is_space}
use dd_trace_py.Base.Updates.{literal}
use dd_trace_py.Formats.{
  reaches_colon, are_not_separated, count_colons, has_colon, count_tags, separator, cut_at_colon,
  ends_with_colon, pair_of, insert_pair, insert_tags, parse_tags_str,
}

-- A character that is no colon, no comma and no space
abbrev pub IsWord : ℕ → Type 0
IsWord c = (nat_beq c 58 ≡ false) × (nat_beq c 44 || is_space c ≡ false)

-- A key or a value: not empty, and only such characters
abbrev pub IsName : Text → Type 0
IsName [] = ⊥
IsName (c ∷ t) = All IsWord (c ∷ t)

abbrev pub AreNames : Text × Text → Type 0
AreNames (key, value) = IsName key × IsName value

abbrev pub show_pair : Text × Text → Text
show_pair (key, value) = key ++ (58 ∷ value)

-- `key1:value1,key2:value2`
abbrev pub show_tags : List (Text × Text) → Text
show_tags tags = join (44 ∷ []) (map show_pair tags)

reaches_colon-word :
    (more : Bool) (v t : Text)
    → All IsWord v
    → reaches_colon false t ≡ false
    → reaches_colon true t ≡ false
    → reaches_colon more (v ++ t) ≡ false
reaches_colon-word false [] t h e e' = e
reaches_colon-word true [] t h e e' = e'
reaches_colon-word more (c ∷ v) t h e e' =
    ground (arith, h.0.0, h.0.1, reaches_colon-word true v t h.1 e e')

are_not_separated-word :
    (v t : Text) → All IsWord v → are_not_separated (v ++ t) ≡ are_not_separated t
are_not_separated-word [] t h = refl
are_not_separated-word (c ∷ v) t h = rw h.0.0 (are_not_separated-word v t h.1)

count_colons-word : (v t : Text) → All IsWord v → count_colons (v ++ t) ≡ count_colons t
count_colons-word [] t h = refl
count_colons-word (c ∷ v) t h = rw h.0.0 (omega (arith, count_colons-word v t h.1))

abbrev NoComma : Text → Type 0
NoComma = All (λ c. nat_beq c 44 ≡ false)

split-word : (v t : Text) → NoComma v → split 44 (v ++ (44 ∷ t)) ≡ v ∷ split 44 t
unfolding split
split-word [] t h = refl
split-word (c ∷ v) t h = rw (h.0, split-word v t h.1) refl

split-last : (v : Text) → NoComma v → split 44 v ≡ v ∷ []
unfolding split
split-last [] h = refl
split-last (c ∷ v) h = rw (h.0, split-last v h.1) refl

word-NoComma : (v : Text) → All IsWord v → NoComma v
word-NoComma [] h = record {}
word-NoComma (c ∷ v) h = (ground (arith, h.0.1), word-NoComma v h.1)

name-words : (t : Text) → IsName t → All IsWord t
name-words [] h = absurd h
name-words (c ∷ t) h = h

pair-NoComma : (k v : Text) → All IsWord k → All IsWord v → NoComma (k ++ (58 ∷ v))
pair-NoComma [] v h h' = (refl, word-NoComma v h')
pair-NoComma (c ∷ k) v h h' = (ground (arith, h.0.1), pair-NoComma k v h.1 h')

pair-separated :
    (p : Text × Text) (t : Text)
    → AreNames p
    → reaches_colon false t ≡ false
    → reaches_colon true t ≡ false
    → are_not_separated (show_pair p ++ t) ≡ are_not_separated t
pair-separated (k, v) t (hk, hv) e e' =
    rw
      (
        append_assoc k (58 ∷ v) t,
        are_not_separated-word k (58 ∷ (v ++ t)) (name-words k hk),
        reaches_colon-word false v t (name-words v hv) e e',
        are_not_separated-word v t (name-words v hv),
      )
      refl

pair-count :
    (p : Text × Text) (t : Text) → AreNames p → count_colons (show_pair p ++ t) ≡ 1 + count_colons t
pair-count (k, v) t (hk, hv) =
    rw
      (
        append_assoc k (58 ∷ v) t,
        count_colons-word k (58 ∷ (v ++ t)) (name-words k hk),
        count_colons-word v t (name-words v hv),
      )
      refl

has_colon-pair : (k v : Text) → has_colon (k ++ (58 ∷ v)) ≡ true
has_colon-pair [] v = refl
has_colon-pair (c ∷ k) v = ground (arith, has_colon-pair k v)

cut-pair : (k v : Text) → All IsWord k → cut_at_colon (k ++ (58 ∷ v)) ≡ some (k, v)
cut-pair [] v h = refl
cut-pair (c ∷ k) v h = rw (cut_at_colon, h.0.0) (rw (cut-pair k v h.1) refl)

ends-word : (v : Text) → All IsWord v → ends_with_colon v ≡ false
ends-word [] h = refl
ends-word (c ∷ []) h = h.0.0
ends-word (c ∷ d ∷ v) h = ends-word (d ∷ v) h.1

pair_of-show : (p : Text × Text) → AreNames p → pair_of (show_pair p) ≡ some p
pair_of-show ([], v) h = absurd h.0
pair_of-show (c ∷ k, []) h = absurd h.1
pair_of-show (c ∷ k, d ∷ v) h =
    rw (pair_of, cut-pair (c ∷ k) (d ∷ v) h.0) (rw (ends-word (d ∷ v) h.1) refl)

insert_tags-update :
    (tags : List (Text × Text)) (d : Dict Text Text)
    → All AreNames tags
    → insert_tags (map show_pair tags) d ≡ update d tags
unfolding insert_tags update
insert_tags-update [] d h = refl
insert_tags-update (p ∷ tags) d h =
    ap (λ o. insert_tags (map show_pair tags) (insert_pair o d)) (pair_of-show p h.0)
    ∙ insert_tags-update tags (insert p.0 p.1 d) h.1

show_tags-separated :
    (p : Text × Text) (tags : List (Text × Text))
    → All AreNames (p ∷ tags)
    → are_not_separated (show_tags (p ∷ tags)) ≡ false
unfolding join is_space
show_tags-separated p [] h =
    ap are_not_separated (sym (append-nil (show_pair p))) ∙ pair-separated p [] h.0 refl refl
show_tags-separated p (q ∷ tags) h =
    pair-separated p (44 ∷ show_tags (q ∷ tags)) h.0 refl refl ∙ show_tags-separated q tags h.1

show_tags-split :
    (p : Text × Text) (tags : List (Text × Text))
    → All AreNames (p ∷ tags)
    → split 44 (show_tags (p ∷ tags)) ≡ map show_pair (p ∷ tags)
unfolding join
show_tags-split p [] h =
    split-last (show_pair p) (pair-NoComma p.0 p.1 (name-words p.0 h.0.0) (name-words p.1 h.0.1))
show_tags-split p (q ∷ tags) h =
    split-word (show_pair p) (show_tags (q ∷ tags))
      (pair-NoComma p.0 p.1 (name-words p.0 h.0.0) (name-words p.1 h.0.1))
    ∙ ap (show_pair p ∷◌) (show_tags-split q tags h.1)

show_tags-count :
    (p : Text × Text) (tags : List (Text × Text))
    → All AreNames (p ∷ tags)
    → count_tags (map show_pair (p ∷ tags)) ≡ count_colons (show_tags (p ∷ tags))
unfolding join
show_tags-count p [] h =
    rw (has_colon-pair p.0 p.1)
      (sym (ap count_colons (sym (append-nil (show_pair p))) ∙ pair-count p [] h.0))
show_tags-count p (q ∷ tags) h =
    let counted = show_tags-count q tags h.1 in
    let here = pair-count p (44 ∷ show_tags (q ∷ tags)) h.0 in
    rw (has_colon-pair p.0 p.1) (omega (arith, counted, here))

separator-comma : (t : Text) → count_tags (split 44 t) ≡ count_colons t → separator t ≡ some 44
separator-comma t e =
    rw (separator, (nat_eq.beq_iff (count_tags (split 44 t)) (count_colons t)).1 e) refl

parse-comma :
    (t : Text)
    → t ≢ []
    → are_not_separated t ≡ false
    → separator t ≡ some 44
    → parse_tags_str (some t) ≡ insert_tags (split 44 t) []
unfolding parse_tags_str
parse-comma [] ne e e' = absurd (ne refl)
parse-comma (c ∷ t) ne e e' = rw (parse_tags_str, e) (rw e' refl)

show_tags-filled :
    (p : Text × Text) (tags : List (Text × Text)) → AreNames p → show_tags (p ∷ tags) ≢ []
unfolding join
show_tags-filled ([], v) tags h e = absurd h.0
show_tags-filled (c ∷ k, v) [] h e = ground (arith, e)
show_tags-filled (c ∷ k, v) (q ∷ tags) h e = ground (arith, e)

-- Tags whose keys and values are not empty and have no colon, comma or white space, written as
-- `key1:value1,key2:value2`, are read as the dict that setting them in that order makes.
pub parse_tags_str-show :
    (p : Text × Text) (tags : List (Text × Text))
    → All AreNames (p ∷ tags)
    → parse_tags_str (some (show_tags (p ∷ tags))) ≡ literal (p ∷ tags)
parse_tags_str-show p tags h =
    let whole = show_tags-split p tags h in
    let t = show_tags (p ∷ tags) in
    parse-comma t (show_tags-filled p tags h.0) (show_tags-separated p tags h)
      (separator-comma t (ap count_tags whole ∙ show_tags-count p tags h))
    ∙ ap (λ parts. insert_tags parts []) whole
    ∙ insert_tags-update (p ∷ tags) [] h

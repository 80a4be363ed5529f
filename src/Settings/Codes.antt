-- ===== src/Settings/Codes.antt =====
-- ddtrace/settings/config.py: `get_error_ranges` and `HTTPServerConfig`.
use dd_trace_py.Base.{Bool, false, ◌&&◌, ◌||◌, Option, none, some, List, [], ◌∷◌, if◌then◌else◌}
use dd_trace_py.Base.Int.{ℤ, leb_ℤ, ltb_ℤ, int_eq}
use dd_trace_py.Base.Text.{Text, codes}
use dd_trace_py.Base.Decimal.{read_int}
use dd_trace_py.Base.Strings.{strip, is_space, split}
use dd_trace_py.Cache.Method.{Object, new_object, call, change}

infixl 5 ◌>>=◌
abbrev ◌>>=◌ {ℓ κ} : {A : Type ℓ} {B : Type κ} → Option A → (A → Option B) → Option B
none >>= f = none
some a >>= f = f a

-- `[int(v) for v in values]`; `none` is the ValueError
abbrev pub read_all : List Text → Option (List ℤ)
read_all [] = some []
read_all (v ∷ vs) = do n ← read_int v; ns ← read_all vs; some (n ∷ ns)

-- `min` and `max`, with the first value
abbrev pub least : ℤ → List ℤ → ℤ
least m [] = m
least m (n ∷ ns) = least (if ltb_ℤ n m then n else m) ns

abbrev pub greatest : ℤ → List ℤ → ℤ
greatest m [] = m
greatest m (n ∷ ns) = greatest (if ltb_ℤ m n then n else m) ns

-- A range that does not read is passed over. `split` never gives an empty list.
abbrev pub range_of : Text → Option (ℤ × ℤ)
range_of t = elim (read_all (split 45 t)) [
  | none ↦ none
  | some [] ↦ none
  | some (n ∷ ns) ↦ some (least n ns, greatest n ns)
]

abbrev pub ranges_of : List Text → List (ℤ × ℤ)
ranges_of [] = []
ranges_of (t ∷ ts) =
    let rest = ranges_of ts in elim (range_of t) [ none ↦ rest | some r ↦ r ∷ rest ]

unfoldable pub get_error_ranges : Text → List (ℤ × ℤ)
unfolding split read_int
get_error_ranges t = ranges_of (split 44 (strip is_space t))

abbrev pub in_ranges : List (ℤ × ℤ) → ℤ → Bool
in_ranges [] status = false
in_ranges ((low, high) ∷ rest) status =
    (leb_ℤ low status && leb_ℤ status high) || in_ranges rest status

pub record Statuses : Type 0 where
  pub error_statuses : Text
  pub error_ranges : List (ℤ × ℤ)

abbrev pub HttpServerConfig : Type 0
HttpServerConfig = Object Statuses ℤ Bool

-- The body of `is_error_code`, which does not raise
abbrev pub is_error_body : Statuses → ℤ → Option Bool
is_error_body s status = some (in_ranges s.error_ranges status)

unfoldable pub default_server_config : HttpServerConfig
unfolding get_error_ranges new_object
default_server_config =
    new_object is_error_body 256 (record {
      error_statuses = codes "500-599";
      error_ranges = get_error_ranges (codes "500-599");
    })

-- The setter of `error_statuses`
unfoldable pub set_error_statuses : Text → HttpServerConfig → HttpServerConfig
unfolding get_error_ranges change
set_error_statuses value c =
    change is_error_body 256
      (λ s. record { error_statuses = value; error_ranges = get_error_ranges value }) c

unfoldable pub is_error_code : ℤ → HttpServerConfig → Option Bool × HttpServerConfig
unfolding call
is_error_code status c = call is_error_body 256 status c

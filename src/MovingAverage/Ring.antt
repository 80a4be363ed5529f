-- ===== src/MovingAverage/Ring.antt =====
-- A ring buffer read from the newest entry to the oldest.
use mathlib.Core.List.{reverse, reverse-append}
use native.Mathlib.Nat.{mod-eq_of_lt, mod_self}
use dd_trace_py.Base.{
  ℕ, suc, ◌+◌, ◌%◌, ◌<◌, ◌≡◌, refl, sym, ap, ◌∙◌, List, [], ◌∷◌, ◌++◌, append-nil, append_assoc,
  arith, length, length-append, set, take, sum, sum-append,
}

-- The slots of `l` before the index `i` are the newest, the last of them first; then come the
-- slots from `i` on, the last of them first.
pub record Ring (l : List ℕ) (i : ℕ) (w : List ℕ) : Type 0 where
  pub front : List ℕ
  pub back : List ℕ
  pub whole : l ≡ front ++ back
  pub position : length front ≡ i
  pub newest_first : w ≡ reverse front ++ reverse back

pub length-reverse : (l : List ℕ) → length (reverse l) ≡ length l
length-reverse [] = refl
length-reverse (x ∷ l) =
    ap length (reverse-append (x ∷ []) l)
    ∙ length-append (reverse l) (x ∷ [])
    ∙ omega (arith, length-reverse l)

pub sum-reverse : (l : List ℕ) → sum (reverse l) ≡ sum l
sum-reverse [] = refl
sum-reverse (x ∷ l) =
    ap sum (reverse-append (x ∷ []) l)
    ∙ sum-append (reverse l) (x ∷ [])
    ∙ omega (arith, sum-reverse l)

take-append : (xs ys : List ℕ) → take (length xs) (xs ++ ys) ≡ xs
take-append [] ys = refl
take-append (x ∷ xs) ys = ap (◌∷◌ x) (take-append xs ys)

set-append : (a b : List ℕ) (x v : ℕ) → set (a ++ (x ∷ b)) (length a) v ≡ a ++ (v ∷ b)
set-append [] b x v = refl
set-append (y ∷ a) b x v = ap (◌∷◌ y) (set-append a b x v)

-- What the write drops is the oldest entry.
shift :
    (a b : List ℕ) (x v : ℕ)
    → take (length (a ++ (x ∷ b))) (v ∷ (reverse a ++ reverse (x ∷ b)))
      ≡ v ∷ (reverse a ++ reverse b)
shift a b x v = rw (longer, fits) (take-append (v ∷ (reverse a ++ reverse b)) (x ∷ []))
  where
    longer : reverse a ++ reverse (x ∷ b) ≡ (reverse a ++ reverse b) ++ (x ∷ [])
    longer = rw (reverse-append (x ∷ []) b) (sym (append_assoc (reverse a) (reverse b) (x ∷ [])))

    fits : length (a ++ (x ∷ b)) ≡ suc (length (reverse a ++ reverse b))
    fits = omega (
      arith,
      length-append a (x ∷ b),
      length-append (reverse a) (reverse b),
      length-reverse a,
      length-reverse b,
    )

-- the slots after a write at the index: the front grows by one, or the ring wraps
Ring-set_split :
    (a b : List ℕ) (x v : ℕ)
    → Ring (a ++ (v ∷ b)) ((length a + 1) % length (a ++ (x ∷ b))) (v ∷ (reverse a ++ reverse b))
Ring-set_split a [] x v = record {
  front = [];
  back = a ++ (v ∷ []);
  whole = refl;
  position = rw (length-append a (x ∷ [])) (sym (mod_self (length a + 1)));
  newest_first = rw (reverse-append a (v ∷ []), append-nil);
}
Ring-set_split a (y ∷ b) x v = record {
  front = a ++ (v ∷ []);
  back = y ∷ b;
  whole = sym (append_assoc a (v ∷ []) (y ∷ b));
  position =
      rw (length-append a (v ∷ []), length-append a (x ∷ y ∷ b)) (sym (mod-eq_of_lt (omega arith)));
  newest_first = rw (reverse-append a (v ∷ []));
}

-- A write at the index, which then moves on and wraps, puts the new value first and drops the
-- oldest one.
pub Ring-set :
    {l w : List ℕ} {i : ℕ} (v : ℕ)
    → Ring l i w
    → i < length l
    → Ring (set l i v) ((i + 1) % length l) (take (length l) (v ∷ w))
Ring-set {l} {w} {i} v r h =
    rw (r.whole, ← r.position, r.newest_first)
      (go r.front r.back (omega (arith, ap length r.whole)))
  where
    go :
        (a b : List ℕ)
        → length a < length (a ++ b)
        → Ring
            (set (a ++ b) (length a) v)
            ((length a + 1) % length (a ++ b))
            (take (length (a ++ b)) (v ∷ (reverse a ++ reverse b)))
    go a [] h' = absurd (omega (arith, length-append a []))
    go a (x ∷ b) h' = rw (shift a b x v, set-append a b x v) (Ring-set_split a b x v)

pub sum-Ring : {l w : List ℕ} {i : ℕ} → Ring l i w → sum l ≡ sum w
sum-Ring {l} {w} r =
    rw (r.whole, r.newest_first)
      (omega (
        arith,
        sum-append r.front r.back,
        sum-append (reverse r.front) (reverse r.back),
        sum-reverse r.front,
        sum-reverse r.back,
      ))

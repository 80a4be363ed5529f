-- ===== src/MovingAverage/Window.antt =====
-- The average is that of the last `size` buckets.
use mathlib.Core.Path.{subst}
use mathlib.Core.List.{reverse, reverse_aux}
use native.Mathlib.Nat.{mod-lt}
use dd_trace_py.Base.{
  ℕ, zero, suc, ◌+◌, ◌-◌, ◌%◌, ◌≤◌, ◌<◌, ◌≡◌, refl, sym, ap, ◌∙◌, false, Option, none, some, List,
  [], ◌∷◌, ◌++◌, map, append-nil, arith, length, length-set, length-replicate, take, replicate, sum,
  sum-set, sum-replicate, get_or, set, All, ltb, nat_eq,
}
use dd_trace_py.Base.Fraction.{IsRate}
use dd_trace_py.MovingAverage.{Average, init, get, put}
use dd_trace_py.MovingAverage.Ring.{Ring, Ring-set, sum-Ring}

-- The calls `set(count, total)`, in order.
pub run : Average → List (ℕ × ℕ) → Option Average
run s [] = some s
run s ((count, total) ∷ calls) = elim (put count total s) [ none ↦ none | some s' ↦ run s' calls ]

abbrev pub zeros : ℕ → List ℕ
zeros n = replicate n 0

-- the last `size` entries, the newest first; before the first call all were 0
abbrev pub window : ℕ → List ℕ → List ℕ
window size h = take size (h ++ zeros size)

-- One of the two rings, with its running sum, against all values so far, the newest first.
pub record Tracks (size index sum_so_far : ℕ) (slots history : List ℕ) : Type 0 where
  pub full : length slots ≡ size
  pub total : sum_so_far ≡ sum slots
  pub ring : Ring slots index (window size history)

take-take : (n : ℕ) (v : ℕ) (l : List ℕ) → take n (v ∷ take n l) ≡ take n (v ∷ l)
take-take zero v l = refl
take-take (suc n) v [] = refl
take-take (suc zero) v (x ∷ l) = refl
take-take (suc (suc n)) v (x ∷ l) = ap (◌∷◌ v) (take-take (suc n) x l)

ltb-false : (a b : ℕ) → b ≤ a → ltb a b ≡ false
ltb-false a b h = ground arith

get_or-le-sum : (l : List ℕ) (i : ℕ) → get_or l i 0 ≤ sum l
get_or-le-sum [] i = omega arith
get_or-le-sum (x ∷ l) zero = omega arith
get_or-le-sum (x ∷ l) (suc i) = omega (arith, get_or-le-sum l i)

take-zeros : (n : ℕ) → take n (zeros n) ≡ zeros n
take-zeros zero = refl
take-zeros (suc n) = ap (◌∷◌ 0) (take-zeros n)

append-zeros : (n m : ℕ) → zeros n ++ (0 ∷ zeros m) ≡ 0 ∷ (zeros n ++ zeros m)
append-zeros zero m = refl
append-zeros (suc n) m = ap (◌∷◌ 0) (append-zeros n m)

reverse_aux-zeros : (n m : ℕ) → reverse_aux (zeros n) (zeros m) ≡ zeros n ++ zeros m
reverse_aux-zeros zero m = refl
reverse_aux-zeros (suc n) m = reverse_aux-zeros n (suc m) ∙ append-zeros n m

Tracks-init : (size : ℕ) → Tracks size 0 0 (zeros size) []
Tracks-init size = record {
  full = length-replicate size 0;
  total = sym (sum-replicate size);
  ring = record {
    front = [];
    back = zeros size;
    whole = refl;
    position = refl;
    newest_first = take-zeros size ∙ sym (reverse_aux-zeros size 0 ∙ append-nil (zeros size));
  };
}

Tracks-put :
    {size index so_far : ℕ} {slots history : List ℕ} (v : ℕ)
    → index < size
    → Tracks size index so_far slots history
    → Tracks size
        ((index + 1) % size)
        (so_far + v - get_or slots index 0)
        (set slots index v)
        (v ∷ history)
Tracks-put {size} {index} {so_far} {slots} {history} v h t = record {
  full = length-set slots index v ∙ t.full;
  total = omega (arith, t.total, sum-set slots index v, get_or-le-sum slots index, t.full);
  ring = rw (← take-take size v (history ++ zeros size)) (
      subst (λ k. Ring (set slots index v) ((index + 1) % k) (take k (v ∷ window size history)))
        t.full (Ring-set v t.ring (omega (arith, t.full))));
}

sum-take-zeros : (n m : ℕ) → sum (take n (zeros m)) ≡ 0
sum-take-zeros zero m = refl
sum-take-zeros (suc n) zero = refl
sum-take-zeros (suc n) (suc m) = omega (arith, sum-take-zeros n m)

sum-window : (n m : ℕ) (h : List ℕ) → sum (take n (h ++ zeros m)) ≡ sum (take n h)
sum-window zero m h = refl
sum-window (suc n) m [] = sum-take-zeros (suc n) m
sum-window (suc n) m (x ∷ h) = omega (arith, sum-window n m h)

abbrev pub counts_of : List (ℕ × ℕ) → List ℕ
counts_of = map (λ e. e.0)

abbrev pub totals_of : List (ℕ × ℕ) → List ℕ
totals_of = map (λ e. e.1)

abbrev pub InBounds : List (ℕ × ℕ) → Type 0
InBounds = All (λ e. e.0 ≤ e.1)

-- The object after the calls `h`, the newest first.
pub record Follows (size : ℕ) (s : Average) (h : List (ℕ × ℕ)) : Type 0 where
  pub fixed : s.size ≡ size
  pub inside : s.index < size
  pub counted : Tracks size s.index s.sum_count s.counts (counts_of h)
  pub totalled : Tracks size s.index s.sum_total s.totals (totals_of h)
  pub bounded : InBounds h

-- the object after a call that does not raise
abbrev pub after : ℕ → ℕ → Average → Average
after count total s = record {
  size = s.size;
  index = (s.index + 1) % s.size;
  counts = set s.counts s.index count;
  totals = set s.totals s.index total;
  sum_count = s.sum_count + count - get_or s.counts s.index 0;
  sum_total = s.sum_total + total - get_or s.totals s.index 0;
}

put-Follows :
    (size : ℕ) (s : Average) (h : List (ℕ × ℕ)) (count total : ℕ)
    → Follows size s h
    → count ≤ total
    → (put count total s ≡ some (after count total s))
      × Follows size (after count total s) ((count, total) ∷ h)
unfolding put
put-Follows size s h count total f le = (
  rw (ltb-false total count le),
  record {
    fixed = f.fixed;
    inside = rw f.fixed (mod-lt (s.index + 1) (omega (arith, f.inside)));
    counted = rw f.fixed (Tracks-put count f.inside f.counted);
    totalled = rw f.fixed (Tracks-put total f.inside f.totalled);
    bounded = (le, f.bounded);
  },
)

run-Follows :
    (size : ℕ) (calls : List (ℕ × ℕ)) (s : Average) (h : List (ℕ × ℕ))
    → Follows size s h
    → InBounds calls
    → (s' : Average) × (run s calls ≡ some s') × Follows size s' (reverse_aux calls h)
unfolding run
run-Follows size [] s h f b = (s, refl, f)
run-Follows size ((count, total) ∷ calls) s h f b =
    let (e, f') = put-Follows size s h count total f b.0 in
    rw (e, run) (run-Follows size calls (after count total s) ((count, total) ∷ h) f' b.1)

take_bounded :
    (n : ℕ) (h : List (ℕ × ℕ))
    → InBounds h
    → sum (take n (counts_of h)) ≤ sum (take n (totals_of h))
take_bounded zero h b = omega arith
take_bounded (suc n) [] b = omega arith
take_bounded (suc n) (e ∷ h) b = omega (arith, b.0, take_bounded n h b.1)

abbrev pub empty : ℕ → Average
empty size = record {
  size = size;
  index = 0;
  counts = zeros size;
  totals = zeros size;
  sum_count = 0;
  sum_total = 0;
}

empty-Follows : (size : ℕ) → 0 < size → Follows size (empty size) []
empty-Follows size h = record {
  fixed = refl;
  inside = h;
  counted = Tracks-init size;
  totalled = Tracks-init size;
  bounded = tt;
}

sum-Tracks :
    {size index so_far : ℕ} {slots history : List ℕ}
    → Tracks size index so_far slots history
    → so_far ≡ sum (take size history)
sum-Tracks {size} {history = history} t = t.total ∙ sum-Ring t.ring ∙ sum-window size size history

get-IsRate : (s : Average) → s.sum_count ≤ s.sum_total → IsRate (get s)
unfolding get
get-IsRate s h = ground arith

-- The object built with a window of `size`, after the calls.
pub start : ℕ → List (ℕ × ℕ) → Option Average
start size calls = elim (init size) [ none ↦ none | some s ↦ run s calls ]

-- For a window of at least one bucket and calls whose count never exceeds their total, neither the
-- constructor nor `set` raises; the sums kept are those of the last `size` calls, as if each call
-- were remembered; and the value of `get` is a fraction between 0 and 1.
pub run_window :
    (size : ℕ) (calls : List (ℕ × ℕ))
    → 0 < size
    → InBounds calls
    → (s : Average) × (start size calls ≡ some s)
      × (s.sum_count ≡ sum (take size (counts_of (reverse calls))))
      × (s.sum_total ≡ sum (take size (totals_of (reverse calls))))
      × IsRate (get s)
unfolding init start
run_window size calls positive b =
    let (s, e, f) = run-Follows size calls (empty size) [] (empty-Follows size positive) b in
    (
      s,
      rw (ltb-false size 1 positive, start) e,
      sum-Tracks f.counted,
      sum-Tracks f.totalled,
      get-IsRate s (
          omega (
            arith,
            sum-Tracks f.counted,
            sum-Tracks f.totalled,
            take_bounded size (reverse calls) f.bounded,
          )),
    )

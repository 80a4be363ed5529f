-- ===== src/Base/Decimal.antt =====
-- `str` of an integer and `int` of a text, for ASCII texts: blanks around the number, a sign, and
-- single underscores between digits are accepted, as Python does.
use Prim.Native.Nat.{ℕ, zero, suc, ◌+◌, ◌-◌, ◌*◌, ◌/◌, ◌%◌, ◌<◌}
use mathlib.Core.Path.{◌≡◌, refl, ap, ◌∙◌}
use mathlib.Core.Bool.{Bool, true, false, ◌&&◌, ◌||◌}
use mathlib.Core.Logic.{inl, inr, ◌≢◌}
use mathlib.Core.Option
use mathlib.Core.Option.{Option, none, some}
use mathlib.Core.List.{[], ◌∷◌}
use native.Mathlib.Omega.{arith}
use dd_trace_py.Base.Tests.{ltb, leb, nat_beq, if◌then◌else◌, Bool-cases}
use dd_trace_py.Base.Lists.{All}
use dd_trace_py.Base.Int.{ℤ, pos, negsuc, sub_ℕ}
use dd_trace_py.Base.Text.{Text, is_digit}

-- The digits of `n` before `rest`.
show_from : ℕ → ℕ → Text → Text
show_from zero n rest = rest
show_from (suc f) n rest =
    let more = show_from f (n / 10) ((48 + n % 10) ∷ rest) in
    if ltb n 10 then (48 + n) ∷ rest else more

unfoldable pub show_nat : ℕ → Text
unfolding show_from
show_nat n = show_from (suc n) n []

unfoldable pub show_int : ℤ → Text
unfolding show_nat
show_int (pos n) = show_nat n
show_int (negsuc n) = 45 ∷ show_nat (suc n)

abbrev pub is_space : ℕ → Bool
is_space c = nat_beq c 32 || leb 9 c && leb c 13

strip_left : Text → Text
strip_left [] = []
strip_left (c ∷ l) = let rest = strip_left l in if is_space c then rest else c ∷ l

abbrev keep_char : ℕ → Text → Text
keep_char c [] = if is_space c then [] else c ∷ []
keep_char c (d ∷ l) = c ∷ d ∷ l

strip_right : Text → Text
strip_right [] = []
strip_right (c ∷ l) = keep_char c (strip_right l)

-- `str.strip`
unfoldable pub strip : Text → Text
unfolding strip_left strip_right
strip l = strip_right (strip_left l)

-- `after` tells that the character before was a digit.
read_digits : Bool → ℕ → Text → Option ℕ
read_digits true acc [] = some acc
read_digits false acc [] = none
read_digits after acc (c ∷ l) =
    let next = read_digits true (acc * 10 + (c - 48)) l in
    let skip = read_digits false acc l in
    if is_digit c then next else if after && nat_beq c 95 then skip else none

abbrev read_signed : Text → Option ℤ
read_signed [] = none
read_signed (c ∷ l) =
    if nat_beq c 45
    then Option.map (sub_ℕ 0) (read_digits false 0 l)
    else if nat_beq c 43
    then Option.map pos (read_digits false 0 l)
    else Option.map pos (read_digits false 0 (c ∷ l))

-- `int(text)`; `none` is its ValueError
unfoldable pub read_int : Text → Option ℤ
unfolding strip read_digits
read_int l = read_signed (strip l)

abbrev AllDigits : Text → Type 0
AllDigits = All (λ c. is_digit c ≡ true)

show_from-AllDigits : (f n : ℕ) (rest : Text) → AllDigits rest → AllDigits (show_from f n rest)
unfolding show_from
show_from-AllDigits zero n rest h = h
show_from-AllDigits (suc f) n rest h =
    ground (arith, show_from-AllDigits f (n / 10) ((48 + n % 10) ∷ rest))

read_digit :
    (after : Bool) (acc d : ℕ) (rest : Text)
    → d < 10
    → read_digits after acc ((48 + d) ∷ rest) ≡ read_digits true (acc * 10 + d) rest
unfolding read_digits
read_digit after acc d rest h = rw (digit, value)
  where
    digit : is_digit (48 + d) ≡ true
    digit = ground arith

    value : 48 + d - 48 ≡ d
    value = omega arith

read-show_from :
    (f n : ℕ) (after : Bool) (rest : Text)
    → n < f
    → read_digits after 0 (show_from f n rest) ≡ read_digits true n rest
unfolding show_from read_digits
read-show_from zero n after rest h = absurd (omega arith)
read-show_from (suc f) n after rest h = elim (Bool-cases (ltb n 10)) [
  | inl e ↦
      rw (e, show_from)
        (read_digit after 0 n rest (ground arith) ∙ ap (λ k. read_digits true k rest) (omega arith))
  | inr e ↦
      rw (e, show_from)
        (read-show_from f (n / 10) after ((48 + n % 10) ∷ rest) (ground arith)
          ∙ read_digit true (n / 10) (n % 10) rest (omega arith)
          ∙ ap (λ k. read_digits true k rest) (omega arith))
]

strip_left_digits : (l : Text) → AllDigits l → strip_left l ≡ l
unfolding strip_left
strip_left_digits [] h = refl
strip_left_digits (c ∷ l) h = ground arith

strip_right_digits : (l : Text) → AllDigits l → strip_right l ≡ l
unfolding strip_right
strip_right_digits [] h = refl
strip_right_digits (c ∷ []) h = ground arith
strip_right_digits (c ∷ d ∷ l) h = rw (strip_right_digits (d ∷ l) h.1)

read_signed_digits :
    (l : Text) → l ≢ [] → AllDigits l → read_signed l ≡ Option.map pos (read_digits false 0 l)
read_signed_digits [] ne h = absurd (ne refl)
read_signed_digits (c ∷ l) ne h = ground arith

show_from_cons : (f n c : ℕ) (rest : Text) → show_from f n (c ∷ rest) ≢ []
unfolding show_from
show_from_cons zero n c rest = λ e. cc e
show_from_cons (suc f) n c rest =
    λ e. ground (arith, show_from_cons f (n / 10) (48 + n % 10) (c ∷ rest))

show_from_ne : (f n : ℕ) (rest : Text) → show_from (suc f) n rest ≢ []
unfolding show_from
show_from_ne f n rest = λ e. ground (arith, show_from_cons f (n / 10) (48 + n % 10) rest)

read_minus :
    (l : Text)
    → l ≢ []
    → AllDigits l
    → read_int (45 ∷ l) ≡ Option.map (sub_ℕ 0) (read_digits false 0 l)
unfolding read_int
read_minus [] ne h = absurd (ne refl)
read_minus (c ∷ l) ne h = rw (strip_right_digits (c ∷ l) h)

-- What `str` writes, `int` reads.
pub read-show_nat : (n : ℕ) → read_int (show_nat n) ≡ some (pos n)
unfolding read_int show_nat
read-show_nat n =
    rw
      (
        strip_left_digits digits all_digits,
        strip_right_digits digits all_digits,
        read_signed_digits digits (show_from_ne n n []) all_digits,
      )
      (rw (read-show_from (suc n) n false [] (omega arith), read_digits, Option.map))
  where
    digits : Text
    digits = show_from (suc n) n []

    all_digits : AllDigits digits
    all_digits = show_from-AllDigits (suc n) n [] tt

pub read-show_int : (i : ℤ) → read_int (show_int i) ≡ some i
unfolding show_int read_digits
read-show_int (pos n) = read-show_nat n
read-show_int (negsuc n) =
    read_minus (show_from (suc (suc n)) (suc n) []) (show_from_ne (suc n) (suc n) [])
      (show_from-AllDigits (suc (suc n)) (suc n) [] tt)
    ∙ rw (read-show_from (suc (suc n)) (suc n) false [] (omega arith)) (ap some (ground arith))

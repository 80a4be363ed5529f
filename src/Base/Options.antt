-- ===== src/Base/Options.antt =====
-- What holds of the answer, if there is one.
use mathlib.Core.Option
use mathlib.Core.Option.{Option, none, some}
use mathlib.Core.Path.{◌≡◌, refl}
use mathlib.Core.Path.{subst}

abbrev pub Every {ℓ κ} : {A : Type ℓ} → (A → Type κ) → Option A → Type κ
Every P none = Unit
Every P (some x) = P x

pub Every-map {ℓ κ λ'} :
    {A : Type ℓ} {B : Type κ} (P : B → Type λ') (f : A → B) (o : Option A)
    → Every (λ x. P (f x)) o
    → Every P (Option.map f o)
Every-map P f none h = h
Every-map P f (some x) h = h

pub Every-bind {ℓ κ λ'} :
    {A : Type ℓ} {B : Type κ} (P : B → Type λ') (f : A → Option B) (o : Option A)
    → Every (λ x. Every P (f x)) o
    → Every P (Option.bind o f)
unfolding Option.bind
Every-bind P f none h = record {}
Every-bind P f (some x) h = h

pub Every-all {ℓ κ} : {A : Type ℓ} (P : A → Type κ) → ((x : A) → P x) → (o : Option A) → Every P o
Every-all P h none = record {}
Every-all P h (some x) = h x

pub Every-imp {ℓ κ λ'} :
    {A : Type ℓ} (P : A → Type κ) (Q : A → Type λ')
    → ((x : A) → P x → Q x)
    → (o : Option A) → Every P o
    → Every Q o
Every-imp P Q h none k = record {}
Every-imp P Q h (some x) k = h x k

pub Every-some {ℓ κ} :
    {A : Type ℓ} (P : A → Type κ) (o : Option A) (x : A) → Every P o → o ≡ some x → P x
Every-some P o x h e = subst (Every P) e h

pub Every-own {ℓ} : {A : Type ℓ} (o : Option A) → Every (λ x. o ≡ some x) o
Every-own none = record {}
Every-own (some x) = refl

-- ===== src/Cache/Method.antt =====
-- ddtrace/utils/cache.py: `cachedmethod`, whose cache belongs to one object, and `invalidate`.
use dd_trace_py.Base.{ℕ, ◌≡◌, refl, Option, [], Eq, arith}
use dd_trace_py.Base.Dict.{Dict, lookup}
use dd_trace_py.Cache.{cached_f, IsFaithful, cached_f-IsFaithful}

-- An object: what the method reads, and the cache of the method
pub record Object {ℓ} (A K V : Type ℓ) : Type ℓ where
  pub state : A
  pub cache : Dict K (V × ℕ)

module _ {ℓ} {A K V : Type ℓ} ⦃keys : Eq K⦄ (f : A → K → Option V) (maxsize : ℕ) where
  unfoldable pub new_object : A → Object A K V
  new_object a = record { state = a; cache = [] }

  -- A call of the method
  unfoldable pub call : K → Object A K V → Option V × Object A K V
  call key o = let (v, d) = cached_f (f o.state) maxsize key o.cache in (v, record o { cache = d })

  -- A change of the object, with `invalidate`
  unfoldable pub change : (A → A) → Object A K V → Object A K V
  change g o = record { state = g o.state; cache = [] }

  -- The cache holds what the method answers now.
  abbrev pub IsFresh : Object A K V → Type ℓ
  IsFresh o = IsFaithful (f o.state) maxsize o.cache

  pub new_object-IsFresh : (a : A) → IsFresh (new_object a)
  unfolding new_object lookup
  new_object-IsFresh a = λ k e p. absurd (ground (arith, p))

  pub change-IsFresh : (g : A → A) (o : Object A K V) → IsFresh (change g o)
  unfolding change lookup
  change-IsFresh g o = λ k e p. absurd (ground (arith, p))

  pub call-IsFresh :
      (key : K) (o : Object A K V)
      → IsFresh o
      → ((call key o).0 ≡ f o.state key)
        × (((call key o).1.state ≡ o.state) × IsFresh (call key o).1)
  unfolding call
  call-IsFresh key o h =
      let (v, fresh) = cached_f-IsFaithful (f o.state) maxsize key o.cache h in (v, (refl, fresh))

-- ===== src/Python/Dict.antt =====
-- Python's `dict` with text keys, in insertion order.
use tls_interop_framework.Prelude.{
  Bool, List, Option, [], arith, false, if◌then◌else◌, map, none, refl, some, ◌||◌, ◌∷◌, ◌≡◌,
}
use tls_interop_framework.Python.Text.{Text, text_eq, text_eq_iff}

abbrev pub Dict {ℓ} : Type ℓ → Type ℓ
Dict V = List (Text × V)

module _ {ℓ} {V : Type ℓ} where
  unfoldable pub lookup : Text → Dict V → Option V
  lookup k [] = none
  lookup k ((j, v) ∷ d) = if text_eq j k then some v else lookup k d

  unfoldable pub has_key : Text → Dict V → Bool
  has_key k [] = false
  has_key k ((j, v) ∷ d) = text_eq j k || has_key k d

  -- `d[k] = v`
  unfoldable pub set : Text → V → Dict V → Dict V
  set k v [] = (k, v) ∷ []
  set k v ((j, w) ∷ d) = let rest = set k v d in if text_eq j k then (j, v) ∷ d else (j, w) ∷ rest

  unfoldable pub keys : Dict V → List Text
  keys d = map (λ e. e.0) d

  pub lookup-set :
      (k j : Text) (v : V) (d : Dict V)
      → lookup j (set k v d) ≡ (if text_eq k j then some v else lookup j d)
  unfolding lookup set
  lookup-set k j v [] = refl
  lookup-set k j v ((i, w) ∷ d) =
      ground (arith, text_eq_iff i k, text_eq_iff i j, text_eq_iff k j, lookup-set k j v d)

-- `d.get(k) or ""`
unfoldable pub get_text : Text → Dict Text → Text
get_text k d = elim (lookup k d) [ none ↦ [] | some v ↦ v ]

pub get_text-set :
    (k j v : Text) (d : Dict Text)
    → get_text j (set k v d) ≡ (if text_eq k j then v else get_text j d)
unfolding get_text
get_text-set k j v d = ground (arith, lookup-set k j v d)

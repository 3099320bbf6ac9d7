-- ===== src/Python/Result.antt =====
-- Functions that may raise. The errors are the exceptions that the source raises or lets through.
use tls_interop_framework.Prelude.{List, [], refl, ◌∷◌, ◌≡◌}
use tls_interop_framework.Python.Text.{Text}

pub data Error : Type 0 where
  -- ValueError of `expand_dimension` and its callers
  empty_after_exclusions : Text → Error
  empty_dimension : Text → Error
  unknown_values : List Text → Error
  -- FileNotFoundError and ValueError of `load_backend_capabilities`
  capabilities_not_found : Text → Error
  capabilities_invalid : Text → Error
  capabilities_not_object : Text → Error
  -- ValueError of the address and port checks, and of `int`
  grpc_addr_missing : Text → Error
  bad_address : Text → Error
  bad_integer : Text → Error
  port_out_of_range : Error
  -- ValueError of suite values
  bad_suite_value : Text → Error

-- A value, or the exception that ends the function.
pub data Result {ℓ} (A : Type ℓ) : Type ℓ where
  err : Error → Result A
  ok : A → Result A

module _ {ℓ κ} {A : Type ℓ} {B : Type κ} where
  infixl 5 ◌>>=◌
  abbrev pub ◌>>=◌ : Result A → (A → Result B) → Result B
  ◌>>=◌ (err exception) rest = err exception
  ◌>>=◌ (ok value) rest = rest value

  -- A chain that succeeds has a first part that succeeds.
  pub >>=-eq-ok :
      (first : Result A) (rest : A → Result B) {result : B}
      → (first >>= rest) ≡ ok result
      → (value : A) × (first ≡ ok value) × (rest value ≡ ok result)
  >>=-eq-ok (err exception) rest done = cc
  >>=-eq-ok (ok value) rest done = (value, refl, done)

-- A comprehension whose body may raise.
abbrev pub traverse {ℓ κ} : {A : Type ℓ} {B : Type κ} → (A → Result B) → List A → Result (List B)
traverse f [] = ok []
traverse f (x ∷ xs) = f x >>= λ y. traverse f xs >>= λ ys. ok (y ∷ ys)

pub ok-injective {ℓ} : {A : Type ℓ} {a b : A} → ok a ≡ ok b → a ≡ b
ok-injective h = cc

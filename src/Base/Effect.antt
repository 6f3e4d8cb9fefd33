-- ===== src/Base/Effect.antt =====
-- Asynchronous code that may throw: a state is passed along, and an exception ends the chain.
pub mod Logic
use Prim.Native.Nat.{ℕ}
use Prim.Native.String.{String}
use mathlib.Core.List.{List, [], ◌∷◌}
use mathlib.Core.Logic.{◌⊎◌, inl, inr}
use mathlib.Core.Path.{◌≡◌, refl}

-- What JavaScript code throws here: a `DOMException` with its name, an `Error`, the client's own
-- `ApiError`, and values that are no `Error`.
pub data Exception : Type 0 where
  dom_exception : (name message : String) → Exception
  error : (message : String) → Exception
  api_error : (status : ℕ) (message : String) → Exception
  not_an_error : Exception

-- `err instanceof Error ? err.message : fallback`
abbrev pub message_of : String → Exception → String
message_of fallback (dom_exception name message) = message
message_of fallback (error message) = message
message_of fallback (api_error status message) = message
message_of fallback not_an_error = fallback

pub data Result {ℓ} (A : Type ℓ) : Type ℓ where
  ok : A → Result A
  err : Exception → Result A

pub Result-cases {ℓ} :
    {A : Type ℓ} (r : Result A) → ((a : A) × (r ≡ ok a)) ⊎ ((e : Exception) × (r ≡ err e))
Result-cases (ok a) = inl (a, refl)
Result-cases (err e) = inr (e, refl)

abbrev pub M {ℓ κ} : Type ℓ → Type κ → Type (ℓ ⊔ κ)
M S A = S → Result A × S

module _ {ℓ κ} {S : Type ℓ} {A : Type κ} where
  abbrev pub pure : A → M S A
  pure a s = (ok a, s)

  abbrev pub throw : Exception → M S A
  throw e s = (err e, s)

  abbrev pub of_result : Result A → M S A
  of_result r s = (r, s)

  -- what follows an `await`, once the awaited result is there
  abbrev pub bind_result {μ} : {B : Type μ} → Result A → (A → M S B) → M S B
  bind_result (ok a) f s = f a s
  bind_result (err e) f s = (err e, s)

  -- `try { … } catch (e) { … }`
  abbrev pub catch_result : Result A → (Exception → M S A) → M S A
  catch_result (ok a) f s = (ok a, s)
  catch_result (err e) f s = f e s

  abbrev pub try_catch : M S A → (Exception → M S A) → M S A
  try_catch m f s = catch_result (m s).0 f (m s).1

  -- `try { … } catch {}`, with the result not used
  abbrev pub attempt : M S A → M S (Unit {0})
  attempt m s = (ok tt, (m s).1)

infixl 5 ◌>>=◌ ◌>>◌
abbrev pub ◌>>=◌ {ℓ κ μ} : {S : Type ℓ} {A : Type κ} {B : Type μ} → M S A → (A → M S B) → M S B
◌>>=◌ m f s = bind_result (m s).0 f (m s).1

abbrev pub ◌>>◌ {ℓ κ μ} : {S : Type ℓ} {A : Type κ} {B : Type μ} → M S A → M S B → M S B
m >> k = m >>= λ _. k

-- Every element in turn.
abbrev pub for_each {ℓ κ μ} :
    {S : Type ℓ} {A : Type κ} {B : Type μ} → List A → (A → B → M S B) → B → M S B
for_each [] body b = pure b
for_each (x ∷ xs) body b = body x b >>= for_each xs body

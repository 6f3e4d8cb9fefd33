-- ===== src/Sync/Env/Trace.antt =====
-- The calls that sync code makes: rules of the program logic for the history.
use file_space.Base.{◌≡◌, refl}
use file_space.Base.Effect.{Result, ok, err, bind_result}
use file_space.Base.Effect.Logic.{IsPreorder, Does, Grows, here, next, Grows-chain, Grows-preorder}
use file_space.Sync.Env.{Call, History, Sync, call}

-- Every call that `m` makes satisfies `P` for the calls before it, also where `m` throws later, and
-- what `m` returns satisfies `Q`.
abbrev pub Makes {ℓ κ ρ} :
    {A : Type ℓ} → (History → Call → Type κ) → (A → Type ρ) → Sync A → Type (ℓ ⊔ κ ⊔ ρ)
Makes P Q m = Does (Grows P) Q m

module _ {κ} (P : History → Call → Type κ) where
  abbrev pub calls : IsPreorder (Grows P)
  calls = Grows-preorder P

  pub call-Makes {ℓ ρ} :
      {A : Type ℓ} {Q : A → Type ρ} (c : Call) (reply : History → Result A)
      → ((h : History) → P h c)
      → ((h : History) (a : A) → reply h ≡ ok a → Q a)
      → Makes P Q (call c reply)
  call-Makes c reply p q = record { leads = λ h. next here (p h); gives = λ h a e. q h a e }

  -- What follows a call knows its reply, and the history at which it was made.
  pub bind_result-Grows {ℓ ρ} :
      {A : Type ℓ} {B : Type ρ} (r : Result A) (f : A → Sync B) {h h' : History}
      → Grows P h h'
      → ((a : A) → r ≡ ok a → Grows P h' (f a h').1)
      → Grows P h (bind_result r f h').1
  bind_result-Grows (ok a) f {h} {h'} g k = Grows-chain P h h' _ g (k a refl)
  bind_result-Grows (err e) f g k = g

  -- What follows a chain that starts with a call.
  pub chained-Grows {ℓ ρ σ} :
      {A : Type ℓ} {B : Type ρ} {C : Type σ} (r : Result A) (k : A → Sync B) (f : B → Sync C)
      {h h' : History}
      → Grows P h h'
      → ((a : A) → r ≡ ok a → Grows P h' (bind_result (k a h').0 f (k a h').1).1)
      → Grows P h (bind_result (bind_result r k h').0 f (bind_result r k h').1).1
  chained-Grows (ok a) k f {h} {h'} g n = Grows-chain P h h' _ g (n a refl)
  chained-Grows (err e) k f g n = g

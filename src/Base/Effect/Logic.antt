-- ===== src/Base/Effect/Logic.antt =====
-- A program logic for code that may throw: `Does R Q m` says that every run of `m` moves the state
-- along `R`, also when it throws, and that every value it returns satisfies `Q`.
use mathlib.Core.Path.{◌≡◌, refl, subst}
use mathlib.Core.List.{List, [], ◌∷◌}
use file_space.Base.Effect.{
  Exception, Result, ok, err, M, pure, throw, of_result, bind_result, catch_result, try_catch,
  attempt, ◌>>=◌, for_each,
}

pub record IsPreorder {ℓ ρ} {S : Type ℓ} (R : S → S → Type ρ) : Type (ℓ ⊔ ρ) where
  pub same : (s : S) → R s s
  pub chain : (s t u : S) → R s t → R t u → R s u

pub record Does {ℓ κ ρ σ} {S : Type ℓ} {A : Type κ} (R : S → S → Type ρ) (Q : A → Type σ)
    (m : M S A) : Type (ℓ ⊔ κ ⊔ ρ ⊔ σ) where
  pub leads : (s : S) → R s (m s).1
  pub gives : (s : S) (a : A) → (m s).0 ≡ ok a → Q a

module _ {ℓ κ ρ σ τ} {S : Type ℓ} {A : Type κ} {R : S → S → Type ρ} {P : A → Type σ}
    {Q : A → Type τ} {m : M S A} where
  pub Does-mono : Does R P m → ((a : A) → P a → Q a) → Does R Q m
  Does-mono d f = record { leads = d.leads; gives = λ s a e. f a (d.gives s a e) }

-- A run that returns has passed its first part.
pub bind_result-eq-ok {ℓ κ μ} :
    {S : Type ℓ} {A : Type κ} {B : Type μ} (r : Result A) (f : A → M S B) (s : S) {b : B}
    → (bind_result r f s).0 ≡ ok b
    → (a : A) × (r ≡ ok a) × ((f a s).0 ≡ ok b)
bind_result-eq-ok (ok a) f s h = (a, refl, h)
bind_result-eq-ok (err e) f s h = absurd (cc)

module _ {κ σ} {A : Type κ} (Q : A → Type σ) where
  -- What is said of a returned value, and `a`'s word for it where there is none.
  abbrev pub Returned : A → Result A → Type σ
  Returned a (ok b) = Q b
  Returned a (err e) = Q a

  pub ok-gives : {a b : A} → Q a → ok a ≡ ok b → Q b
  ok-gives {a} q e = subst (Returned a) e q

pub ok_injective {κ} : {A : Type κ} {a b : A} → ok a ≡ ok b → a ≡ b
ok_injective {a} e = ok-gives (λ c. a ≡ c) refl e

module _ {ℓ ρ} {S : Type ℓ} {R : S → S → Type ρ} (o : IsPreorder R) where
  module _ {κ σ} {A : Type κ} {Q : A → Type σ} where
    pub pure-Does : (a : A) → Q a → Does R Q (pure a)
    pure-Does a q = record { leads = o.same; gives = λ s b e. ok-gives Q q e }

    pub throw-Does : (e : Exception) → Does R Q (throw e)
    throw-Does e = record { leads = o.same; gives = λ s a h. cc }

    pub of_result-Does : (r : Result A) → ((a : A) → r ≡ ok a → Q a) → Does R Q (of_result r)
    of_result-Does r f = record { leads = o.same; gives = λ s a e. f a e }

    pub attempt-Does : {m : M S A} → Does R Q m → Does R (λ (u : Unit {0}). Unit {0}) (attempt m)
    attempt-Does d = record { leads = d.leads; gives = λ s a e. tt }

    pub try_catch-Does :
        (m : M S A) (f : Exception → M S A)
        → Does R Q m
        → ((e : Exception) → Does R Q (f e))
        → Does R Q (try_catch m f)
    try_catch-Does m f d k = record {
      leads = λ s. caught_leads (m s).0 s (m s).1 (d.leads s);
      gives = λ s a. caught_gives (m s).0 (m s).1 a (λ e. d.gives s a e);
    }
      where
        caught_leads : (r : Result A) (s t : S) → R s t → R s (catch_result r f t).1
        caught_leads (ok a) s t h = h
        caught_leads (err e) s t h = o.chain s t _ h ((k e).leads t)

        caught_gives :
            (r : Result A) (t : S) (a : A) → (r ≡ ok a → Q a) → (catch_result r f t).0 ≡ ok a → Q a
        caught_gives (ok b) t a g e = g e
        caught_gives (err x) t a g e = (k x).gives t a e

  module _ {κ μ σ τ} {A : Type κ} {B : Type μ} {P : A → Type σ} {Q : B → Type τ} where
    pub bind-Does :
        (m : M S A) (f : A → M S B)
        → Does R P m
        → ((a : A) → P a → Does R Q (f a))
        → Does R Q (m >>= f)
    bind-Does m f d k = record {
      leads = λ s. bound_leads (m s).0 s (m s).1 (d.leads s) (d.gives s);
      gives = λ s. bound_gives (m s).0 (m s).1 (d.gives s);
    }
      where
        bound_leads :
            (r : Result A) (s t : S)
            → R s t
            → ((a : A) → r ≡ ok a → P a)
            → R s (bind_result r f t).1
        bound_leads (ok a) s t h g = o.chain s t _ h ((k a (g a refl)).leads t)
        bound_leads (err e) s t h g = h

        bound_gives :
            (r : Result A) (t : S)
            → ((a : A) → r ≡ ok a → P a)
            → (b : B) → (bind_result r f t).0 ≡ ok b
            → Q b
        bound_gives (ok a) t g b e = (k a (g a refl)).gives t b e
        bound_gives (err x) t g b e = absurd (cc)

  module _ {κ μ σ} {A : Type κ} {B : Type μ} (I : List A → B → Type σ) (body : A → B → M S B) where
    -- The invariant speaks of what is left of the list.
    pub for_each-Does :
        ((x : A) (xs : List A) (b : B) → I (x ∷ xs) b → Does R (I xs) (body x b))
        → (xs : List A) (b : B) → I xs b
        → Does R (I []) (for_each xs body b)
    for_each-Does keep [] b h = pure-Does b h
    for_each-Does keep (x ∷ xs) b h =
        bind-Does (body x b) (for_each xs body) (keep x xs b h) (λ c i. for_each-Does keep xs c i)

-- A loop whose rounds never throw returns.
module _ {ℓ κ μ} {S : Type ℓ} {A : Type κ} {B : Type μ} (body : A → B → M S B) where
  pub for_each_total :
      ((x : A) (b : B) (s : S) → (c : B) × ((body x b s).0 ≡ ok c))
      → (xs : List A) (b : B) (s : S) → (c : B) × ((for_each xs body b s).0 ≡ ok c)
  for_each_total k [] b s = (b, refl)
  for_each_total k (x ∷ xs) b s =
      let (c, e) = k x b s in let (d, e') = for_each_total k xs c (body x b s).1 in (d, rw e e')

-- A history that grows at its head, where each new call satisfies `P` for the calls before it.
pub data Grows {ℓ κ} {C : Type ℓ} (P : List C → C → Type κ) (h : List C)
    : List C → Type (ℓ ⊔ κ) where
  here : Grows P h h
  next : {h' : List C} {c : C} → Grows P h h' → P h' c → Grows P h (c ∷ h')

module _ {ℓ κ} {C : Type ℓ} (P : List C → C → Type κ) where
  pub Grows-chain : (h i j : List C) → Grows P h i → Grows P i j → Grows P h j
  Grows-chain h i j g here = g
  Grows-chain h i j g (next {h'} k p) = next (Grows-chain h i h' g k) p

  pub Grows-preorder : IsPreorder (Grows P)
  Grows-preorder = record { same = λ h. here; chain = Grows-chain }

module _ {ℓ κ μ} {C : Type ℓ} {P : List C → C → Type κ} {Q : List C → C → Type μ} where
  pub Grows-mono :
      ((h : List C) (c : C) → P h c → Q h c) → {h h' : List C} → Grows P h h' → Grows Q h h'
  Grows-mono f here = here
  Grows-mono f (next {h'} {c} g p) = next (Grows-mono f g) (f h' c p)

-- ===== src/Base/ActionRules.antt =====
-- Rules for what an action keeps, ends with and returns.
use mathlib.Core.Path.{◌≡◌, refl, ap}
use mathlib.Core.Bool.{Bool, true, false}
use mathlib.Core.List.{List, [], ◌∷◌, ◌++◌}
use bfx_reports_framework.Base.Lists.{All}
use bfx_reports_framework.Base.Tests.{if◌then◌else◌}
use bfx_reports_framework.Base.Actions.{
  Result, ok, err, Action, pure, lift, after, caught, for_each, ◌>>=◌, ◌>>◌,
}

-- The rule for a predicate of the state and of how an action ends: what `m` ends with is what `f`
-- starts from.
pub after-ends :
    {S E A B : Type 0} (Q : S → Result E A → Type 0) (R : S → Result E B → Type 0)
    (f : A → Action S E B)
    → ((a : A) (t : S) → Q t (ok a) → R (f a t).0 (f a t).1)
    → ((e : E) (t : S) → Q t (err e) → R t (err e))
    → (t : S) (r : Result E A) → Q t r
    → R (after t r f).0 (after t r f).1
after-ends Q R f go stop t (ok a) q = go a t q
after-ends Q R f go stop t (err e) q = stop e t q

-- What every round keeps, as long as none has failed, and what the loop then ends with.
pub for_each-ends :
    {S E A : Type 0} (Q : S → Result E (Unit {0}) → Type 0) (f : A → Action S E (Unit {0}))
    (xs : List A)
    → All (λ a. (t : S) → Q t (ok tt) → Q (f a t).0 (f a t).1) xs
    → (t : S) → Q t (ok tt)
    → Q (for_each xs f t).0 (for_each xs f t).1
unfolding for_each
for_each-ends Q f [] keep t q = q
for_each-ends Q f (x ∷ xs) keep t q =
    after-ends Q Q _ (λ a u h. for_each-ends Q f xs keep.1 u h) (λ e u h. h) _ _ (keep.0 t q)

pub All-every {ℓ} : {A : Type ℓ} (P : A → Type 0) (xs : List A) → ((a : A) → P a) → All P xs
All-every P [] h = tt
All-every P (x ∷ xs) h = (h x, All-every P xs h)

-- An action that keeps a predicate of the state, whether it returns or raises.
abbrev pub Keeps : {S E A : Type 0} → (S → Type 0) → Action S E A → Type 0
Keeps {S = S} P m = (s : S) → P s → P (m s).0

module _ {S E A B : Type 0} where
  pub after-Keeps :
      (P : S → Type 0) (f : A → Action S E B)
      → ((a : A) → Keeps P (f a))
      → (t : S) (r : Result E A) → P t
      → P (after t r f).0
  after-Keeps P f keep t (ok a) p = keep a t p
  after-Keeps P f keep t (err e) p = p

module _ {S E A : Type 0} where
  pub caught-Keeps :
      (P : S → Type 0) (f : E → Action S E A)
      → ((e : E) → Keeps P (f e))
      → (t : S) (r : Result E A) → P t
      → P (caught t r f).0
  caught-Keeps P f keep t (ok a) p = p
  caught-Keeps P f keep t (err e) p = keep e t p

  pub if-Keeps :
      (P : S → Type 0) (b : Bool) (m n : Action S E A)
      → (b ≡ true → Keeps P m)
      → (b ≡ false → Keeps P n)
      → Keeps P (if b then m else n)
  if-Keeps P true m n km kn = km refl
  if-Keeps P false m n km kn = kn refl

  pub for_each-Keeps :
      (P : S → Type 0) (f : A → Action S E (Unit {0})) (xs : List A)
      → All (λ a. Keeps P (f a)) xs
      → Keeps P (for_each xs f)
  unfolding for_each
  for_each-Keeps P f [] keep s p = p
  for_each-Keeps P f (x ∷ xs) keep s p =
      after-Keeps P (λ _. for_each xs f) (λ _. for_each-Keeps P f xs keep.1) _ _ (keep.0 s p)

module _ {S E A B : Type 0} where
  pub >>=-Keeps :
      (P : S → Type 0) (m : Action S E A) (f : A → Action S E B)
      → Keeps P m
      → ((a : A) → Keeps P (f a))
      → Keeps P (m >>= f)
  >>=-Keeps P m f km kf s p = after-Keeps P f kf _ _ (km s p)

  pub >>-Keeps :
      (P : S → Type 0) (m : Action S E A) (k : Action S E B)
      → Keeps P m
      → Keeps P k
      → Keeps P (m >> k)
  >>-Keeps P m k km kk = >>=-Keeps P m (λ _. k) km (λ _. kk)

module _ {S E A : Type 0} (f : A → Action S E (Unit {0})) (ys : List A) (t : S) where
  after-ok_append :
      (xs : List A)
      → ((u : S) → for_each xs f u ≡ (t, ok tt) → for_each (xs ++ ys) f u ≡ for_each ys f t)
      → (u : S) (r : Result E (Unit {0})) → after u r (λ _. for_each xs f) ≡ (t, ok tt)
      → after u r (λ _. for_each (xs ++ ys) f) ≡ for_each ys f t
  after-ok_append xs ih u (ok tt) h = ih u h
  after-ok_append xs ih u (err e) h = cc

  -- A loop over two lists, where the first ends without an error
  pub for_each-append :
      (xs : List A) (s : S)
      → for_each xs f s ≡ (t, ok tt)
      → for_each (xs ++ ys) f s ≡ for_each ys f t
  unfolding for_each
  for_each-append [] s h = ap (for_each ys f) (ap (λ p. p.0) h)
  for_each-append (x ∷ xs) s h = after-ok_append xs (for_each-append xs) (f x s).0 (f x s).1 h

-- What an action returns, where it does not raise
abbrev pub Returns {ℓ} : {E A : Type 0} → (A → Type ℓ) → Result E A → Type ℓ
Returns P (ok a) = P a
Returns P (err e) = Unit

pub record Gives {S E A : Type 0} (P : A → Type 0) (m : Action S E A) : Type 0 where
  pub at : (s : S) → Returns P (m s).1

module _ {S E A B : Type 0} where
  after-Returns :
      (P : A → Type 0) (Q : B → Type 0) (f : A → Action S E B)
      → ((a : A) → P a → Gives Q (f a))
      → (t : S) (r : Result E A) → Returns P r
      → Returns Q (after t r f).1
  after-Returns P Q f h t (ok a) p = (h a p).at t
  after-Returns P Q f h t (err e) p = tt

  pub >>=-Gives_of :
      (P : A → Type 0) (Q : B → Type 0) (m : Action S E A) (f : A → Action S E B)
      → Gives P m
      → ((a : A) → P a → Gives Q (f a))
      → Gives Q (m >>= f)
  >>=-Gives_of P Q m f p h = record { at = λ s. after-Returns P Q f h (m s).0 (m s).1 (p.at s) }

Returns-any : {E A : Type 0} (r : Result E A) → Returns (λ _. Unit {0}) r
Returns-any (ok a) = tt
Returns-any (err e) = tt

module _ {S E A B : Type 0} where
  pub >>=-Gives :
      (Q : B → Type 0) (m : Action S E A) (f : A → Action S E B)
      → ((a : A) → Gives Q (f a))
      → Gives Q (m >>= f)
  >>=-Gives Q m f h =
      >>=-Gives_of (λ _. Unit {0}) Q m f (record { at = λ s. Returns-any (m s).1 }) (λ a _. h a)

module _ {S E A : Type 0} where
  pub pure-Gives : (P : A → Type 0) (a : A) → P a → Gives {S = S} {E = E} P (pure a)
  pure-Gives P a p = record { at = λ s. p }

  pub if-Gives :
      (P : A → Type 0) (b : Bool) (m n : Action S E A)
      → (b ≡ true → Gives P m)
      → (b ≡ false → Gives P n)
      → Gives P (if b then m else n)
  if-Gives P true m n p q = p refl
  if-Gives P false m n p q = q refl

module _ {S E A B : Type 0} where
  pub lift-Gives :
      (Q : B → Type 0) (r : Result E A) (f : A → Action S E B)
      → ((a : A) → Gives Q (f a))
      → Gives Q (lift r >>= f)
  lift-Gives Q r f h = >>=-Gives Q (lift r) f h

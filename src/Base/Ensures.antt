-- ===== src/Base/Ensures.antt =====
-- What holds after an action that does not raise.
use mathlib.Core.Bool.{Bool, true, false}
use mathlib.Core.List.{List, [], ◌∷◌}
use bfx_reports_framework.Base.Lists.{All}
use bfx_reports_framework.Base.Tests.{if◌then◌else◌}
use bfx_reports_framework.Base.Actions.{Result, ok, err, Action, after, for_each, ◌>>=◌}
use bfx_reports_framework.Base.ActionRules.{Keeps, for_each-Keeps, All-every}

abbrev pub OnOk : {S E A : Type 0} → (S → Type 0) → S → Result E A → Type 0
OnOk P s (ok a) = P s
OnOk P s (err e) = Unit

pub record Ensures {S E A : Type 0} (P : S → Type 0) (m : Action S E A) : Type 0 where
  pub at : (s : S) → OnOk P (m s).0 (m s).1

module _ {S E A : Type 0} where
  OnOk-any : (P : S → Type 0) (s : S) (r : Result E A) → P s → OnOk P s r
  OnOk-any P s (ok a) p = p
  OnOk-any P s (err e) p = tt

  OnOk-both :
      (P Q : S → Type 0) (s : S) (r : Result E A)
      → OnOk P s r
      → OnOk Q s r
      → OnOk (λ t. P t × Q t) s r
  OnOk-both P Q s (ok a) p q = (p, q)
  OnOk-both P Q s (err e) p q = tt

  pub if-Ensures :
      (P : S → Type 0) (b : Bool) (m n : Action S E A)
      → Ensures P m
      → Ensures P n
      → Ensures P (if b then m else n)
  if-Ensures P true m n p q = p
  if-Ensures P false m n p q = q

module _ {S E A B : Type 0} where
  after-then :
      (P : S → Type 0) (f : A → Action S E B)
      → ((a : A) → Ensures P (f a))
      → (t : S) (r : Result E A) → OnOk P (after t r f).0 (after t r f).1
  after-then P f h t (ok a) = (h a).at t
  after-then P f h t (err e) = tt

  after-kept :
      (P : S → Type 0) (f : A → Action S E B)
      → ((a : A) → Keeps P (f a))
      → (t : S) (r : Result E A) → OnOk P t r
      → OnOk P (after t r f).0 (after t r f).1
  after-kept P f keep t (ok a) p = OnOk-any P (f a t).0 (f a t).1 (keep a t p)
  after-kept P f keep t (err e) p = tt

  -- What comes last brings it about
  pub >>=-Ensures :
      (P : S → Type 0) (m : Action S E A) (f : A → Action S E B)
      → ((a : A) → Ensures P (f a))
      → Ensures P (m >>= f)
  >>=-Ensures P m f h = record { at = λ s. after-then P f h (m s).0 (m s).1 }

  -- or what comes first does, and the rest keeps it.
  pub >>=-Ensures_kept :
      (P : S → Type 0) (m : Action S E A) (f : A → Action S E B)
      → Ensures P m
      → ((a : A) → Keeps P (f a))
      → Ensures P (m >>= f)
  >>=-Ensures_kept P m f p keep = record { at = λ s. after-kept P f keep (m s).0 (m s).1 (p.at s) }

-- A loop of which each turn brings about its own and keeps the others'
pub for_each-Ensures :
    {S E A : Type 0} (P : A → S → Type 0) (f : A → Action S E (Unit {0}))
    → ((a : A) → Ensures (P a) (f a))
    → ((a b : A) → Keeps (P a) (f b))
    → (xs : List A) → Ensures (λ s. All (λ a. P a s) xs) (for_each xs f)
unfolding for_each
for_each-Ensures P f own keep [] = record { at = λ s. tt }
for_each-Ensures P f own keep (x ∷ xs) = record {
  at = λ s.
      OnOk-both (P x) (λ t. All (λ a. P a t) xs) _ _
        ((>>=-Ensures_kept (P x) (f x) (λ _. for_each xs f) (own x)
            (λ _. for_each-Keeps (P x) f xs (All-every _ xs (λ b. keep x b)))).at
          s)
        ((>>=-Ensures (λ t. All (λ a. P a t) xs) (f x) (λ _. for_each xs f)
            (λ _. for_each-Ensures P f own keep xs)).at
          s);
}

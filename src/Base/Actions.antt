-- ===== src/Base/Actions.antt =====
-- Actions on a state that may end with an error. What was written before an error stays written.
use mathlib.Core.Bool.{Bool}
use mathlib.Core.List.{List, [], ◌∷◌}
use bfx_reports_framework.Base.Tests.{if◌then◌else◌}

pub data Result (E A : Type 0) : Type 0 where
  ok : A → Result E A
  err : E → Result E A

abbrev pub Action : Type 0 → Type 0 → Type 0 → Type 0
Action S E A = S → S × Result E A

module _ {S E A : Type 0} where
  abbrev pub pure : A → Action S E A
  pure a s = (s, ok a)

  abbrev pub raise : E → Action S E A
  raise e s = (s, err e)

  abbrev pub lift : Result E A → Action S E A
  lift r s = (s, r)

  abbrev pub gets : (S → A) → Action S E A
  gets f s = (s, ok (f s))

  abbrev pub caught : S → Result E A → (E → Action S E A) → S × Result E A
  caught s (ok a) f = (s, ok a)
  caught s (err e) f = f e s

  -- `try` and `catch`
  abbrev pub catching : Action S E A → (E → Action S E A) → Action S E A
  catching m f s = caught (m s).0 (m s).1 f

abbrev pub modify : {S E : Type 0} → (S → S) → Action S E (Unit {0})
modify f s = (f s, ok tt)

abbrev pub after : {S E A B : Type 0} → S → Result E A → (A → Action S E B) → S × Result E B
after s (ok a) f = f a s
after s (err e) f = (s, err e)

infixl 5 ◌>>=◌ ◌>>◌
abbrev pub ◌>>=◌ : {S E A B : Type 0} → Action S E A → (A → Action S E B) → Action S E B
◌>>=◌ m f s = after (m s).0 (m s).1 f

abbrev pub ◌>>◌ : {S E A B : Type 0} → Action S E A → Action S E B → Action S E B
m >> k = m >>= λ _. k

abbrev pub raise_if : {S E : Type 0} → Bool → E → Action S E (Unit {0})
raise_if b e s = (s, if b then err e else ok tt)

-- `for (const x of xs) await f(x)`
unfoldable pub for_each :
    {S E A : Type 0} → List A → (A → Action S E (Unit {0})) → Action S E (Unit {0})
for_each [] f = pure tt
for_each (x ∷ xs) f = do f x; for_each xs f

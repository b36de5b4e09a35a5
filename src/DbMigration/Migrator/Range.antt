-- ===== src/DbMigration/Migrator/Range.antt =====
-- db.migrator.js: the versions of `range`.
use mathlib.Core.List.{reverse}
use bfx_reports_framework.Base.{ℕ, ◌+◌, ◌-◌, ◌≤◌, ltb, ◌≡◌, refl, subst, if_ind, false, [], arith}
use bfx_reports_framework.DbMigration.Migrator.{count_from, range}

pub range-up : (a b : ℕ) → a ≤ b → range a b ≡ count_from (a + 1) (b - a)
unfolding range
range-up a b h = ground arith

range_self : (a : ℕ) → count_from (a + 1) (a - a) ≡ []
range_self a = let e : a - a ≡ 0 = omega arith in rw e refl

pub range-down : (a b : ℕ) → a ≤ b → range b a ≡ reverse (count_from (a + 1) (b - a))
unfolding range
range-down a b h = if_ind (λ l. l ≡ reverse (count_from (a + 1) (b - a))) (ltb a b) (λ _. refl) same
  where
    same : ltb a b ≡ false → count_from (b + 1) (a - b) ≡ reverse (count_from (a + 1) (b - a))
    same e =
        let e' : a ≡ b = ground arith in
        subst (λ c. count_from (c + 1) (a - c) ≡ reverse (count_from (a + 1) (c - a))) e'
          (rw (range_self a) refl)

-- ===== src/Progress/ErrorText.antt =====
-- workers/loc.api/sync/progress/index.js: the test of a text with `errorRegExp`, which is
-- `/(error)|(ERR_)/gi`. It is one object for the module, and with its flag `g` a test starts at the
-- `lastIndex` that the test before has left, behind what it found, or 0 where it found nothing.
use bfx_reports_framework.Base.{
  ℕ, zero, suc, ◌+◌, ◌<◌, ◌≡◌, refl, sym, ap, ◌∙◌, String, Bool, true, false, ◌&&◌, ◌||◌, Option,
  none, some, List, [], ◌∷◌, if◌then◌else◌, ltb, leb, ltb→lt, Bool-cases, inl, inr, any, length,
  arith,
}
use bfx_reports_framework.Category.Patterns.{codes, to_lower_case, is_prefix}

abbrev pub error_word : List ℕ
error_word = b'e' ∷ b'r' ∷ b'r' ∷ b'o' ∷ b'r' ∷ []

abbrev pub err_mark : List ℕ
err_mark = b'e' ∷ b'r' ∷ b'r' ∷ b'_' ∷ []

-- Behind the first match in the characters from index `k` on.
unfoldable pub search_error : List ℕ → ℕ → Option ℕ
unfolding is_prefix
search_error [] k = none
search_error (c ∷ d) k =
    if is_prefix error_word (c ∷ d)
    then some (k + 5)
    else if is_prefix err_mark (c ∷ d)
    then some (k + 4)
    else search_error d (k + 1)

abbrev pub skip : ℕ → List ℕ → List ℕ
skip zero d = d
skip (suc n) [] = []
skip (suc n) (c ∷ d) = skip n d

unfoldable pub test_error : String → ℕ → Bool × ℕ
unfolding search_error to_lower_case
test_error s last_index =
    if ltb (length (codes s)) last_index
    then (false, 0)
    else elim (search_error (skip last_index (to_lower_case (codes s))) last_index) [
      | none ↦ (false, 0)
      | some k ↦ (true, k)
    ]

-- Whether one of the two words begins at the index `j`
abbrev pub error_at : List ℕ → ℕ → Bool
error_at d j = is_prefix error_word (skip j d) || is_prefix err_mark (skip j d)

abbrev pub positions : ℕ → List ℕ → List ℕ
positions k [] = []
positions k (c ∷ d) = k ∷ positions (suc k) d

-- Whether `error` or `ERR_` stands in the text in some case of its letters, at or behind an index
abbrev pub error_found : String → ℕ → Bool
error_found s i =
    let d = to_lower_case (codes s) in any (λ j. leb i j && error_at d j) (positions 0 d)

any-shift :
    (f : ℕ → Bool) (k : ℕ) (d : List ℕ)
    → any f (positions (suc k) d) ≡ any (λ j. f (suc j)) (positions k d)
any-shift f k [] = refl
any-shift f k (c ∷ d) = ap (λ b. f (suc k) || b) (any-shift f (suc k) d)

any_ext : (f g : ℕ → Bool) (xs : List ℕ) → ((j : ℕ) → f j ≡ g j) → any f xs ≡ any g xs
any_ext f g [] h = refl
any_ext f g (x ∷ xs) h = λ i. h x i || any_ext f g xs h i

abbrev is_found : Option ℕ → Bool
is_found none = false
is_found (some k) = true

or_found :
    (a b : Bool) (k l : ℕ) (o : Option ℕ)
    → is_found (if a then some k else if b then some l else o) ≡ ((a || b) || is_found o)
or_found a b k l o = ground arith

search_error-found :
    (d : List ℕ) (k : ℕ) → is_found (search_error d k) ≡ any (error_at d) (positions 0 d)
unfolding search_error
search_error-found [] k = refl
search_error-found (c ∷ d) k =
    or_found (is_prefix error_word (c ∷ d)) (is_prefix err_mark (c ∷ d)) (k + 5) (k + 4)
      (search_error d (k + 1))
    ∙ ap (λ b. error_at (c ∷ d) 0 || b)
        (search_error-found d (k + 1) ∙ sym (any-shift (error_at (c ∷ d)) 0 d))

any-from :
    (i : ℕ) (d : List ℕ)
    → any (λ j. leb i j && error_at d j) (positions 0 d)
      ≡ any (error_at (skip i d)) (positions 0 (skip i d))
any-from zero d =
    any_ext (λ j. leb 0 j && error_at d j) (error_at d) (positions 0 d) (λ j. ground arith)
any-from (suc i) [] = refl
any-from (suc i) (c ∷ d) =
    ap (λ b. b || any (λ j. leb (suc i) j && error_at (c ∷ d) j) (positions 1 d))
      (front (error_at (c ∷ d) 0))
    ∙ any-shift (λ j. leb (suc i) j && error_at (c ∷ d) j) 0 d
    ∙ any_ext (λ j. leb (suc i) (suc j) && error_at d j) (λ j. leb i j && error_at d j)
        (positions 0 d) (λ j. ap (λ b. b && error_at d j) (leb_suc j))
    ∙ any-from i d
  where
    front : (b : Bool) → (leb (suc i) 0 && b) ≡ false
    front b = ground arith

    leb_suc : (j : ℕ) → leb (suc i) (suc j) ≡ leb i j
    leb_suc j = ground arith

skip-all : (i : ℕ) (d : List ℕ) → length d < i → skip i d ≡ []
skip-all zero d h = absurd (omega arith)
skip-all (suc i) [] h = refl
skip-all (suc i) (c ∷ d) h = skip-all i d (omega arith)

length-lower : (d : List ℕ) → length (to_lower_case d) ≡ length d
unfolding to_lower_case
length-lower [] = refl
length-lower (c ∷ d) = ap suc (length-lower d)

found_of :
    (o : Option ℕ)
    → (elim o as (λ x. Bool × ℕ) [ none ↦ (false, 0) | some k ↦ (true, k) ]).0 ≡ is_found o
found_of none = refl
found_of (some k) = refl

pub test_error-error_found :
    (s : String) (last_index : ℕ) → (test_error s last_index).0 ≡ error_found s last_index
unfolding test_error
test_error-error_found s last_index =
    let d = to_lower_case (codes s) in
    elim (Bool-cases (ltb (length (codes s)) last_index)) [
      | inl behind ↦ rw behind (
          sym (
            any-from last_index d
            ∙ ap (λ e. any (error_at e) (positions 0 e))
                (skip-all last_index d
                  (ground (arith, length-lower (codes s), ltb→lt _ _ behind)))))
      | inr within ↦ rw within (
          found_of (search_error (skip last_index d) last_index)
          ∙ search_error-found (skip last_index d) last_index
          ∙ sym (any-from last_index d))
    ]

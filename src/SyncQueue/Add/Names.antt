-- ===== src/SyncQueue/Add/Names.antt =====
-- `_getUniqueNames` against what it is for.
use text.Mathlib.TextEquality.{eq_iff}
use bfx_reports_framework.Base.{
  String, ◌≡◌, refl, Bool, true, false, not, ◌&&◌, ◌||◌, List, [], ◌∷◌, ◌++◌, ◌⊎◌, inl, inr, arith,
  any, all, All, All-map, All-append, str_eq, if◌then◌else◌, if_ind,
}
use bfx_reports_framework.SyncQueue.Table.{Job}
use bfx_reports_framework.SyncQueue.Add.{unique_names_from, get_unique_names}

-- A job of the collection is among the jobs, and a name is among the names.
abbrev pub has_job : List Job → String → Bool
has_job jobs name = any (λ item. str_eq item.coll_name name) jobs

abbrev pub has_name : List String → String → Bool
has_name names name = any (λ item. str_eq item name) names

abbrev pub HasNoRepeats : List String → Type 0
HasNoRepeats [] = Unit
HasNoRepeats (name ∷ names) = (has_name names name ≡ false) × HasNoRepeats names

all-not {ℓ} : {A : Type ℓ} (p : A → Bool) (xs : List A) → all (λ x. not (p x)) xs ≡ not (any p xs)
all-not p [] = refl
all-not p (x ∷ xs) = ground (arith, all-not p xs)

has_name-append :
    (xs ys : List String) (name : String)
    → has_name (xs ++ ys) name ≡ (has_name xs name || has_name ys name)
has_name-append [] ys name = refl
has_name-append (x ∷ xs) ys name = ground (arith, has_name-append xs ys name)

HasNoRepeats-snoc :
    (xs : List String) (name : String)
    → has_name xs name ≡ false
    → HasNoRepeats xs
    → HasNoRepeats (xs ++ name ∷ [])
HasNoRepeats-snoc [] name absent h = (refl, tt)
HasNoRepeats-snoc (x ∷ xs) name absent h = (
  ground (arith, has_name-append xs (name ∷ []) x, eq_iff x name, eq_iff name x, h.0),
  HasNoRepeats-snoc xs name (ground arith) h.1,
)

-- What the names so far, `accum`, are once some names have been read.
record AreUnique (jobs : List Job) (requested accum : List String) : Type 0 where
  pub no_repeats : HasNoRepeats accum
  pub fresh : All (λ name. has_job jobs name ≡ false) accum
  pub asked : All (λ name. has_name requested name ≡ true) accum

has_name_self : (name : String) (names : List String) → has_name (name ∷ names) name ≡ true
has_name_self name names = ground (arith, eq_iff name name)

module _ (jobs : List Job) (requested : List String) where
  AreUnique-snoc :
      (accum : List String) (name : String)
      → AreUnique jobs requested accum
      → has_name requested name ≡ true
      → has_job jobs name ≡ false
      → has_name accum name ≡ false
      → AreUnique jobs requested (accum ++ name ∷ [])
  AreUnique-snoc accum name u asked fresh absent = record {
    no_repeats = HasNoRepeats-snoc accum name absent u.no_repeats;
    fresh = All-append _ accum (name ∷ []) u.fresh (fresh, tt);
    asked = All-append _ accum (name ∷ []) u.asked (asked, tt);
  }

  -- one step of the `reduce`
  abbrev is_new : List String → String → Bool
  is_new accum curr =
      all (λ item. not (str_eq item.coll_name curr)) jobs
      && all (λ item. not (str_eq item curr)) accum

  abbrev next_accum : List String → String → List String
  next_accum accum curr = if is_new accum curr then accum ++ curr ∷ [] else accum

  AreUnique-next :
      (accum : List String) (name : String)
      → AreUnique jobs requested accum
      → has_name requested name ≡ true
      → AreUnique jobs requested (next_accum accum name)
  AreUnique-next accum name u asked =
      if_ind (AreUnique jobs requested) (is_new accum name)
        (λ new.
          AreUnique-snoc accum name u asked
            (ground (arith, new, all-not (λ (item : Job). str_eq item.coll_name name) jobs))
            (ground (arith, new, all-not (λ (item : String). str_eq item name) accum)))
        (λ old. u)

  unique_names_from-AreUnique :
      (accum names : List String)
      → AreUnique jobs requested accum
      → All (λ name. has_name requested name ≡ true) names
      → AreUnique jobs requested (unique_names_from jobs accum names)
  unfolding unique_names_from
  unique_names_from-AreUnique accum [] u asked = u
  unique_names_from-AreUnique accum (name ∷ names) u asked =
      unique_names_from-AreUnique (next_accum accum name) names
        (AreUnique-next accum name u asked.0) asked.1

  -- A name that is in the accumulator stays, and one that is read is in it or has a job.
  has_name-next_accum :
      (accum : List String) (curr name : String)
      → has_name accum name ≡ true
      → has_name (next_accum accum curr) name ≡ true
  has_name-next_accum accum curr name h =
      if_ind (λ l. has_name l name ≡ true) (is_new accum curr) {x = accum ++ curr ∷ []}
        (λ new. ground (arith, has_name-append accum (curr ∷ []) name, h)) (λ old. h)

  unique_names_from-keeps :
      (accum names : List String) (name : String)
      → has_name accum name ≡ true
      → has_name (unique_names_from jobs accum names) name ≡ true
  unfolding unique_names_from
  unique_names_from-keeps accum [] name h = h
  unique_names_from-keeps accum (curr ∷ names) name h =
      unique_names_from-keeps (next_accum accum curr) names name
        (has_name-next_accum accum curr name h)

  -- the name is provided for: it is among the names, or has a job
  abbrev Provided : List String → String → Type 0
  Provided names name = (has_name names name ≡ true) ⊎ (has_job jobs name ≡ true)

  next_accum-Provided :
      (accum : List String) (curr : String) → Provided (next_accum accum curr) curr
  next_accum-Provided accum curr =
      if_ind (λ l. Provided l curr) (is_new accum curr) {x = accum ++ curr ∷ []} {y = accum}
        (λ new. inl (ground (arith, has_name-append accum (curr ∷ []) curr, eq_iff curr curr)))
        (λ old. ground (
          arith,
          old,
          all-not (λ (item : Job). str_eq item.coll_name curr) jobs,
          all-not (λ (item : String). str_eq item curr) accum,
        ))

  Provided-unique_names_from :
      (accum names : List String) → All (Provided (unique_names_from jobs accum names)) names
  unfolding unique_names_from
  Provided-unique_names_from accum [] = tt
  Provided-unique_names_from accum (curr ∷ names) = (
    elim (next_accum-Provided accum curr) [
      | inl there ↦ inl (unique_names_from-keeps (next_accum accum curr) names curr there)
      | inr waits ↦ inr waits
    ],
    Provided-unique_names_from (next_accum accum curr) names,
  )

pub All-has_name : (names : List String) → All (λ name. has_name names name ≡ true) names
All-has_name [] = tt
All-has_name (name ∷ names) =
    (has_name_self name names, All-map _ _ names (λ n h. ground (arith, h)) (All-has_name names))

-- The names that `_getUniqueNames` returns are the requested names that no given job has, each
-- once: there are no repeats among them, none is the collection of a given job, each was requested,
-- and each requested name is among them or is the collection of a given job.
pub get_unique_names_lem :
    (jobs : List Job) (requested : List String)
    → HasNoRepeats (get_unique_names jobs requested)
      × All (λ name. has_job jobs name ≡ false) (get_unique_names jobs requested)
      × All (λ name. has_name requested name ≡ true) (get_unique_names jobs requested)
      × All
          (λ name.
            (has_name (get_unique_names jobs requested) name ≡ true) ⊎ (has_job jobs name ≡ true))
          requested
unfolding get_unique_names
get_unique_names_lem jobs requested =
    let u =
      unique_names_from-AreUnique jobs requested [] requested
        (record { no_repeats = tt; fresh = tt; asked = tt }) (All-has_name requested) in
    (u.no_repeats, u.fresh, u.asked, Provided-unique_names_from jobs requested [] requested)

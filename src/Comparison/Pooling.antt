-- ===== src/Comparison/Pooling.antt =====
-- The status of an arm as a summary of its nodes: which verdicts are on it, and how two arms join.
use web_inspector.Prelude.{
  Bool, List, [], arith, eqb, filter_by, if◌then◌else◌, length, length-append, length-filter_by,
  refl, some, ℕ, ◌++◌, ◌+◌, ◌∷◌, ◌≡◌, ◌≤◌, All, true, ◌<◌, ◌≢◌, false, Bool-cases, inl, inr,
}
use web_inspector.Comparison.{
  ArmStatus, OkField, arm_status, combine_gsa, fail, is_defined, is_truthy, mixed, ok, unavailable,
  given, undefined, null,
}

-- The numbers of usable and of OK results.
pub usable : List OkField → ℕ
usable rs = length (filter_by is_defined rs)

pub oks : List OkField → ℕ
oks rs = length (filter_by is_truthy (filter_by is_defined rs))

oks-le-usable : (rs : List OkField) → oks rs ≤ usable rs
unfolding oks usable
oks-le-usable rs = length-filter_by is_truthy (filter_by is_defined rs)

filter_by-append {ℓ} :
    {A : Type ℓ} (p : A → Bool) (xs ys : List A)
    → filter_by p (xs ++ ys) ≡ filter_by p xs ++ filter_by p ys
filter_by-append p [] ys = refl
filter_by-append p (x ∷ xs) ys = ground (arith, filter_by-append p xs ys)

usable-append : (xs ys : List OkField) → usable (xs ++ ys) ≡ usable xs + usable ys
unfolding usable
usable-append xs ys = rw (filter_by-append is_defined xs ys) (length-append _ _)

oks-append : (xs ys : List OkField) → oks (xs ++ ys) ≡ oks xs + oks ys
unfolding oks
oks-append xs ys =
    rw (filter_by-append is_defined xs ys) (rw (filter_by-append is_truthy _ _) (length-append _ _))

-- The status as a function of the two numbers.
of_counts : ℕ → ℕ → ArmStatus
of_counts u k =
    if eqb u 0 then unavailable else if eqb k u then ok else if eqb k 0 then fail else mixed

arm_status_counts : (rs : List OkField) → arm_status rs ≡ of_counts (usable rs) (oks rs)
unfolding arm_status of_counts usable oks
arm_status_counts rs = refl

of_counts-combine :
    (u k v l : ℕ)
    → k ≤ u
    → l ≤ v
    → combine_gsa (some (of_counts u k)) (some (of_counts v l)) ≡ of_counts (u + v) (k + l)
unfolding of_counts combine_gsa
of_counts-combine u k v l h h' = ground arith

-- The two GSA arms, combined, have the status that one arm with the nodes of both would have.
pub combine_gsa-arm_status :
    (xs ys : List OkField)
    → combine_gsa (some (arm_status xs)) (some (arm_status ys)) ≡ arm_status (xs ++ ys)
combine_gsa-arm_status xs ys =
    rw
      (
        arm_status_counts xs,
        arm_status_counts ys,
        arm_status_counts (xs ++ ys),
        usable-append xs ys,
        oks-append xs ys,
      )
      (of_counts-combine (usable xs) (oks xs) (usable ys) (oks ys) (oks-le-usable xs)
        (oks-le-usable ys))

-- What each status says of the results.
abbrev pub Means : ArmStatus → List OkField → Type 0
Means unavailable rs = All (λ r. r ≡ undefined) rs
Means ok rs = (0 < usable rs) × All (λ r. is_defined r ≡ true → r ≡ given true) rs
Means fail rs = (0 < usable rs) × All (λ r. r ≢ given true) rs
Means mixed rs = (0 < oks rs) × (oks rs < usable rs)

All-undefined : (rs : List OkField) → usable rs ≡ 0 → All (λ r. r ≡ undefined) rs
unfolding usable
All-undefined [] h = tt
All-undefined (undefined ∷ rs) h = (refl, All-undefined rs h)
All-undefined (null ∷ rs) h = absurd (omega arith)
All-undefined (given b ∷ rs) h = absurd (omega arith)

All-true :
    (rs : List OkField) → oks rs ≡ usable rs → All (λ r. is_defined r ≡ true → r ≡ given true) rs
unfolding usable oks
All-true [] h = tt
All-true (undefined ∷ rs) h = (λ e. cc, All-true rs h)
All-true (null ∷ rs) h =
    absurd (omega (arith, length-filter_by is_truthy (filter_by is_defined rs)))
All-true (given true ∷ rs) h = (λ e. refl, All-true rs (omega arith))
All-true (given false ∷ rs) h =
    absurd (omega (arith, length-filter_by is_truthy (filter_by is_defined rs)))

none_true : (rs : List OkField) → oks rs ≡ 0 → All (λ r. r ≢ given true) rs
unfolding oks
none_true [] h = tt
none_true (undefined ∷ rs) h = (λ e. cc, none_true rs h)
none_true (null ∷ rs) h = (λ e. cc, none_true rs h)
none_true (given true ∷ rs) h = absurd (omega arith)
none_true (given false ∷ rs) h = (λ e. cc, none_true rs h)

of_counts-Means :
    (rs : List OkField) (u k : ℕ) → usable rs ≡ u → oks rs ≡ k → k ≤ u → Means (of_counts u k) rs
unfolding of_counts
of_counts-Means rs u k eu ek h = elim (Bool-cases (eqb u 0)) [
  | inl no_usable ↦ rw no_usable (All-undefined rs (ground arith))
  | inr some_usable ↦ rw some_usable (elim (Bool-cases (eqb k u)) [
    | inl all ↦ rw all (ground arith, All-true rs (ground arith))
    | inr some_not ↦ rw some_not (elim (Bool-cases (eqb k 0)) [
      | inl none_ok ↦ rw none_ok (ground arith, none_true rs (ground arith))
      | inr some_ok ↦ rw some_ok (ground arith, ground arith)
    ])
  ])
]

-- The status of an arm says of its results: `unavailable`, that all are undefined; `ok`, that some
-- are defined and those are all true; `fail`, that some are defined and none is true; `mixed`,
-- that some are true and some of the defined ones are not.
pub arm_status-Means : (rs : List OkField) → Means (arm_status rs) rs
arm_status-Means rs =
    rw (arm_status_counts rs) (of_counts-Means rs (usable rs) (oks rs) refl refl (oks-le-usable rs))

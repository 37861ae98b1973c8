-- ===== src/Scheduler/Selection/Filters.antt =====
-- node-selection.mjs: what is in a list that `filter` leaves.
use web_inspector.Prelude.{
  All, Bool, Bool-cases, List, [], ap, arith, false, filter_by, if_cases, inl, inr, refl, subst,
  sym, true, ◌∷◌, ◌≡◌, ◌⊎◌,
}

module _ {ℓ κ} {A : Type ℓ} (P : A → Type κ) (p : A → Bool) where
  -- What `filter` keeps has what it had, and passes the test.
  pub All-filter_by : (xs : List A) → All P xs → All (λ x. (p x ≡ true) × P x) (filter_by p xs)
  All-filter_by [] h = tt
  All-filter_by (x ∷ xs) h =
      if_cases (All (λ y. (p y ≡ true) × P y)) (p x) (λ e. ((e, h.0), All-filter_by xs h.1))
        (λ _. All-filter_by xs h.1)

pub All-map {ℓ κ μ} :
    {A : Type ℓ} (P : A → Type κ) (Q : A → Type μ) (f : (x : A) → P x → Q x) (xs : List A)
    → All P xs
    → All Q xs
All-map P Q f [] h = tt
All-map P Q f (x ∷ xs) h = (f x h.0, All-map P Q f xs h.1)

pub All-Unit {ℓ} : {A : Type ℓ} (xs : List A) → All (λ (x : A). Unit {0}) xs
All-Unit [] = tt
All-Unit (x ∷ xs) = (tt, All-Unit xs)

-- `x` stands in a list.
abbrev pub Occurs : {A : Type 0} → A → List A → Type 0
Occurs x [] = ⊥
Occurs x (y ∷ ys) = (x ≡ y) ⊎ Occurs x ys

module _ {A : Type 0} (p : A → Bool) (x : A) where
  pub Occurs-filter_by : (xs : List A) → Occurs x xs → p x ≡ true → Occurs x (filter_by p xs)
  Occurs-filter_by [] m h = m
  Occurs-filter_by (y ∷ ys) (inl e) h =
      if_cases (Occurs x) (p y) (λ _. inl e) (λ out. absurd (ground (arith, ap p e, h, out)))
  Occurs-filter_by (y ∷ ys) (inr m) h =
      if_cases (Occurs x) (p y) (λ _. inr (Occurs-filter_by ys m h)) (λ _. Occurs-filter_by ys m h)

  -- What a filter keeps was there.
  pub kept-Occurs : (xs : List A) → Occurs x (filter_by p xs) → Occurs x xs
  kept-Occurs [] m = m
  kept-Occurs (y ∷ ys) m =
      if_cases (λ l. Occurs x l → Occurs x (y ∷ ys)) (p y) (λ _. among (kept-Occurs ys))
        (λ _ rest. inr (kept-Occurs ys rest)) m
    where
      among :
          (Occurs x (filter_by p ys) → Occurs x ys)
          → Occurs x (y ∷ filter_by p ys)
          → Occurs x (y ∷ ys)
      among later (inl e) = inl e
      among later (inr rest) = inr (later rest)

pub All-Occurs : {A : Type 0} (P : A → Type 0) (x : A) (xs : List A) → All P xs → Occurs x xs → P x
All-Occurs P x [] all m = absurd m
All-Occurs P x (y ∷ ys) all (inl e) = subst P (sym e) all.0
All-Occurs P x (y ∷ ys) all (inr m) = All-Occurs P x ys all.1 m

-- A filter that refuses everything keeps nothing.
pub filter_by-refused :
    {A : Type 0} (p : A → Bool) (xs : List A) → All (λ x. p x ≡ false) xs → filter_by p xs ≡ []
filter_by-refused p [] h = refl
filter_by-refused p (x ∷ xs) h =
    if_cases (λ l. l ≡ []) (p x) (λ kept. absurd (ground (arith, kept, h.0)))
      (λ _. filter_by-refused p xs h.1)

-- What a filter that keeps nothing has refused.
pub All-refused {ℓ} :
    {A : Type ℓ} (p : A → Bool) (xs : List A) → filter_by p xs ≡ [] → All (λ x. p x ≡ false) xs
All-refused p [] h = tt
All-refused p (x ∷ xs) h = elim (Bool-cases (p x)) [
  | inl kept ↦ absurd (ground (arith, h, kept))
  | inr out ↦ (out, All-refused p xs (ground (arith, h, out)))
]

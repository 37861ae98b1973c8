-- ===== src/Prelude/Dict.antt =====
-- JavaScript's `Map` and plain objects, as association lists in insertion order:
-- a write to a key that is there keeps its place.
use mathlib.Core.Path.{◌≡◌, refl}
use mathlib.Core.Bool.{Bool, true, false}
use mathlib.Core.List.{List, [], ◌∷◌, map}
use mathlib.Core.Logic.{◌≢◌, ◌⊎◌}
use mathlib.Core.Option.{Option, none, some}
use native.Mathlib.Omega.{arith}
use web_inspector.Prelude.Tests.{if_cases, Eq, eq_iff, ◌==◌, if◌then◌else◌}

abbrev pub Dict : Type 0 → Type 0 → Type 0
Dict K V = List (K × V)

module _ {K V : Type 0} ⦃e : Eq K⦄ where
  -- m.get(k)
  unfoldable pub lookup : K → Dict K V → Option V
  lookup k [] = none
  lookup k ((j, v) ∷ m) = let rest = lookup k m in if j == k then some v else rest

  -- m.set(k, v)
  unfoldable pub insert : K → V → Dict K V → Dict K V
  insert k v [] = (k, v) ∷ []
  insert k v ((j, w) ∷ m) = let rest = insert k v m in if j == k then (j, v) ∷ m else (j, w) ∷ rest

  -- m.delete(k); in a `Map` a key stands at most once
  unfoldable pub delete : K → Dict K V → Dict K V
  delete k [] = []
  delete k ((j, w) ∷ m) = let rest = delete k m in if j == k then rest else (j, w) ∷ rest

  -- m.has(k)
  abbrev pub has : K → Dict K V → Bool
  has k m = elim (lookup k m) [ none ↦ false | some _ ↦ true ]

  -- [...m.keys()]
  abbrev pub keys : Dict K V → List K
  keys = map (λ e. e.0)

  -- [...m.values()]
  abbrev pub values : Dict K V → List V
  values = map (λ e. e.1)

  -- { ...m, ...n }
  unfoldable pub merge : Dict K V → Dict K V → Dict K V
  merge m [] = m
  merge m ((k, v) ∷ n) = merge (insert k v m) n

  pub lookup-insert :
      (key asked : K) (new : V) (d : Dict K V)
      → lookup asked (insert key new d) ≡ (if key == asked then some new else lookup asked d)
  unfolding lookup insert
  lookup-insert key asked new ((head, old) ∷ tail) = ground (
    arith,
    eq_iff key asked,
    eq_iff head key,
    eq_iff head asked,
    lookup-insert key asked new tail,
  )
  lookup-insert key asked new [] = refl

  pub lookup-delete :
      (k j : K) (m : Dict K V) → lookup j (delete k m) ≡ (if k == j then none else lookup j m)
  unfolding lookup delete
  lookup-delete k j [] = ground arith
  lookup-delete k j ((i, w) ∷ m) =
      ground (arith, eq_iff k j, eq_iff i k, eq_iff i j, lookup-delete k j m)

  -- Where a value that is found after a write comes from.
  pub lookup-insert_cases :
      (k j : K) (v w : V) (m : Dict K V)
      → lookup j (insert k v m) ≡ some w
      → ((k ≡ j) × (v ≡ w)) ⊎ ((k ≢ j) × (lookup j m ≡ some w))
  lookup-insert_cases k j v w m h = ground (arith, lookup-insert k j v m, eq_iff k j)

  pub lookup-insert_self : (k : K) (v : V) (m : Dict K V) → lookup k (insert k v m) ≡ some v
  lookup-insert_self k v m = ground (arith, lookup-insert k k v m, eq_iff k k)

  pub lookup-insert_ne :
      (k j : K) (v : V) (m : Dict K V) → k ≢ j → lookup j (insert k v m) ≡ lookup j m
  lookup-insert_ne k j v m h = ground (arith, lookup-insert k j v m, eq_iff k j)

  -- No key stands twice, as in a `Map`.
  abbrev pub NoRepeat : Dict K V → Type 0
  NoRepeat [] = Unit
  NoRepeat ((k, v) ∷ m) = (lookup k m ≡ none) × NoRepeat m

  pub insert-NoRepeat : (k : K) (v : V) (m : Dict K V) → NoRepeat m → NoRepeat (insert k v m)
  unfolding insert
  insert-NoRepeat k v [] h = (unfold lookup in refl, tt)
  insert-NoRepeat k v ((j, w) ∷ m) h =
      if_cases NoRepeat (j == k) (λ _. h)
        (λ differs. (
          ground (arith, lookup-insert k j v m, eq_iff k j, eq_iff j k, h.0),
          insert-NoRepeat k v m h.1,
        ))

  pub delete-NoRepeat : (k : K) (m : Dict K V) → NoRepeat m → NoRepeat (delete k m)
  unfolding delete
  delete-NoRepeat k [] h = tt
  delete-NoRepeat k ((j, w) ∷ m) h =
      if_cases NoRepeat (j == k) (λ _. delete-NoRepeat k m h.1)
        (λ _. (ground (arith, lookup-delete k j m, h.0), delete-NoRepeat k m h.1))

  -- The later object wins.
  pub lookup-merge :
      (j : K) (m n : Dict K V)
      → NoRepeat n
      → lookup j (merge m n) ≡ elim (lookup j n) [ none ↦ lookup j m | some v ↦ some v ]
  unfolding merge lookup
  lookup-merge j m [] h = refl
  lookup-merge j m ((k, v) ∷ n) h =
      ground (arith, lookup-merge j (insert k v m) n h.1, lookup-insert k j v m, eq_iff k j, h.0)

  pub lookup-nil : (j : K) → ◌≡◌ {A = Option V} (lookup j []) none
  unfolding lookup
  lookup-nil j = refl

  pub lookup-reload : (j : K) (m : Dict K V) → NoRepeat m → lookup j (merge [] m) ≡ lookup j m
  lookup-reload j m h = ground (arith, lookup-merge j [] m h, lookup-nil j)

-- ===== src/Contracts/Versions/Compare.antt =====
-- What `compareVersions` decides: the order of the first segment that differs.
use web_inspector.Prelude.{
  ℕ, zero, suc, ◌+◌, ◌≤◌, ◌<◌, Ordering, ◌≡◌, refl, List, [], ◌∷◌, arith, length, Bool-cases,
  Option, String, inl, inr, ltb, max, subst, sym, ◌↔◌, ◌≢◌,
}
use web_inspector.Contracts.Versions.{
  segment, compare_from, compare_segments, compare_versions, segments,
}

-- The first segment that differs is the smaller one in `a`; a missing segment reads 0.
abbrev pub Precedes : List ℕ → List ℕ → Type 0
Precedes a b = (k : ℕ) × (segment a k < segment b k) × ((j : ℕ) → j < k → segment a j ≡ segment b j)

abbrev pub SameSegments : List ℕ → List ℕ → Type 0
SameSegments a b = (j : ℕ) → segment a j ≡ segment b j

-- The three answers, as statements about the segments.
abbrev pub Decides : Ordering → List ℕ → List ℕ → Type 0
Decides Ordering.lt a b = Precedes a b
Decides Ordering.eq a b = SameSegments a b
Decides Ordering.gt a b = Precedes b a

segment_past : (a : List ℕ) (j : ℕ) → length a ≤ j → segment a j ≡ 0
unfolding segment
segment_past [] j h = refl
segment_past (x ∷ a) zero h = absurd (omega arith)
segment_past (x ∷ a) (suc j) h = segment_past a j (omega arith)

-- All segments below `i` agree.
abbrev Agree : ℕ → List ℕ → List ℕ → Type 0
Agree i a b = (j : ℕ) → j < i → segment a j ≡ segment b j

Agree-suc : (i : ℕ) (a b : List ℕ) → Agree i a b → segment a i ≡ segment b i → Agree (suc i) a b
Agree-suc i a b h e j lt = grind (arith, h)

compare_from-Decides :
    (rounds i : ℕ) (a b : List ℕ)
    → length a ≤ rounds + i
    → length b ≤ rounds + i
    → Agree i a b
    → Decides (compare_from rounds i a b) a b
unfolding compare_from
compare_from-Decides zero i a b ha hb agree =
    λ j. ground (arith, agree j, segment_past a j, segment_past b j)
compare_from-Decides (suc rounds) i a b ha hb agree =
    elim (Bool-cases (ltb (segment b i) (segment a i))) [
      | inl above ↦ rw above (i, ground arith, λ j lt. sym (agree j lt))
      | inr not_above ↦ rw not_above (elim (Bool-cases (ltb (segment a i) (segment b i))) [
        | inl below ↦ rw below (i, ground arith, agree)
        | inr not_below ↦ rw not_below (
            compare_from-Decides rounds (suc i) a b (omega arith) (omega arith)
              (Agree-suc i a b agree (ground arith)))
      ])
    ]

-- The loop of two non-empty versions, for as many rounds as the longer one has segments.
compare_segments-Decides : (a b : List ℕ) → a ≢ [] → b ≢ [] → Decides (compare_segments a b) a b
unfolding compare_segments
compare_segments-Decides a [] ha hb = absurd (hb refl)
compare_segments-Decides [] (y ∷ b) ha hb = absurd (ha refl)
compare_segments-Decides (x ∷ a) (y ∷ b) ha hb =
    compare_from-Decides (max (length (x ∷ a)) (length (y ∷ b))) 0 (x ∷ a) (y ∷ b) (omega arith)
      (omega arith) (λ j lt. absurd (omega arith))

-- At most one of the three statements holds, so an answer follows from its statement.
Precedes-irrefl : (a b : List ℕ) → SameSegments a b → ¬ Precedes a b
Precedes-irrefl a b same (k, lt, e) = omega (arith, same k)

Precedes-asymm : (a b : List ℕ) → Precedes a b → ¬ Precedes b a
Precedes-asymm a b (k, lt, e) (m, lt', e') = ground (arith, e m, e' k)

Decides-unique : (o p : Ordering) (a b : List ℕ) → Decides o a b → Decides p a b → o ≡ p
Decides-unique Ordering.lt Ordering.lt a b d d' = refl
Decides-unique Ordering.lt Ordering.eq a b d d' = absurd (Precedes-irrefl a b d' d)
Decides-unique Ordering.lt Ordering.gt a b d d' = absurd (Precedes-asymm a b d d')
Decides-unique Ordering.eq Ordering.lt a b d d' = absurd (Precedes-irrefl a b d d')
Decides-unique Ordering.eq Ordering.eq a b d d' = refl
Decides-unique Ordering.eq Ordering.gt a b d d' = absurd (Precedes-irrefl b a (λ j. sym (d j)) d')
Decides-unique Ordering.gt Ordering.lt a b d d' = absurd (Precedes-asymm a b d' d)
Decides-unique Ordering.gt Ordering.eq a b d d' = absurd (Precedes-irrefl b a (λ j. sym (d' j)) d)
Decides-unique Ordering.gt Ordering.gt a b d d' = refl

-- For two versions that each have a run of digits, `compareVersions` answers -1, 0 or 1 exactly
-- when the first differing segment is the smaller one in the actual version, when all segments
-- are the same (missing ones read as 0), or when it is the smaller one in the target.
pub compare_versions-Decides :
    (actual target : Option String) (o : Ordering)
    → segments actual ≢ []
    → segments target ≢ []
    → (compare_versions actual target ≡ o) ↔ Decides o (segments actual) (segments target)
unfolding compare_versions
compare_versions-Decides actual target o ha ht =
    let holds = compare_segments-Decides (segments actual) (segments target) ha ht in
    (
      (λ e. subst (λ p. Decides p (segments actual) (segments target)) e holds),
      Decides-unique (compare_versions actual target) o (segments actual) (segments target) holds,
    )

compare_segments_nothing : (a : List ℕ) → compare_segments a [] ≡ Ordering.eq
unfolding compare_segments
compare_segments_nothing [] = refl
compare_segments_nothing (x ∷ a) = refl

compare_nothing_segments : (b : List ℕ) → b ≢ [] → compare_segments [] b ≡ Ordering.lt
unfolding compare_segments
compare_nothing_segments [] h = absurd (h refl)
compare_nothing_segments (y ∷ b) h = refl

-- A target without digits is met by every version, and a version without digits is older than
-- every target with digits.
pub compare_versions_default :
    (actual target : Option String)
    → (segments target ≡ [] → compare_versions actual target ≡ Ordering.eq)
      × (segments actual ≡ [] → segments target ≢ [] → compare_versions actual target ≡ Ordering.lt)
unfolding compare_versions
compare_versions_default actual target = (
  λ e. rw e (compare_segments_nothing (segments actual)),
  λ e h. rw e (compare_nothing_segments (segments target) h),
)

compare_segments_self : (a : List ℕ) → compare_segments a a ≡ Ordering.eq
compare_segments_self [] = compare_segments_nothing []
compare_segments_self (x ∷ a) =
    Decides-unique (compare_segments (x ∷ a) (x ∷ a)) Ordering.eq (x ∷ a) (x ∷ a)
      (compare_segments-Decides (x ∷ a) (x ∷ a) (λ e. cc) (λ e. cc)) (λ j. refl)

-- A version compares as equal to itself.
pub compare_versions_self : (v : Option String) → compare_versions v v ≡ Ordering.eq
unfolding compare_versions
compare_versions_self v = compare_segments_self (segments v)

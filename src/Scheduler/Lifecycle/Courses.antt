-- ===== src/Scheduler/Lifecycle/Courses.antt =====
-- lifecycle.mjs: the transitions end, and completion comes after the comparison and the packet.
use mathlib.Core.Option.{some-injective}
use web_inspector.Prelude.{
  List, String, [], value, ◌∷◌, ◌≡◌, All, Bool-cases, Option, arith, eq_iff, inl, inr, length, none,
  refl, some, subst, ℕ, ◌<◌, ◌==◌, ◌≤◌, ap, sym, ◌∙◌, string_eq,
}
use web_inspector.Scheduler.Lifecycle.{
  UrlState, assert_transition, browser_validation_completed, browser_validation_running, cancelled,
  checked, comparison_running, completed, failed, initial_tests_completed, initial_tests_running,
  legal, legal_from, named, packet_generation, queued, state_text, url_states,
}

-- A run of transitions that `assertTransition` lets through, with the states it enters
pub data Course : String → List UrlState → String → Type 0 where
  stay : {s : String} → Course s [] s
  move :
      {s t u : String} {next : UrlState} {rest : List UrlState}
      → assert_transition s t ≡ value next
      → Course t rest u
      → Course s (next ∷ rest) u

-- How many transitions a state can have before it at most an end
abbrev rank : UrlState → ℕ
rank queued = 7
rank initial_tests_running = 6
rank initial_tests_completed = 5
rank browser_validation_running = 4
rank browser_validation_completed = 3
rank comparison_running = 2
rank packet_generation = 1
rank completed = 0
rank failed = 0
rank cancelled = 0

legal_falls : (s : UrlState) → All (λ t. rank t < rank s) (legal s)
legal_falls queued = (ground arith, (ground arith, tt))
legal_falls initial_tests_running = (ground arith, (ground arith, (ground arith, tt)))
legal_falls initial_tests_completed = (ground arith, (ground arith, (ground arith, tt)))
legal_falls browser_validation_running = (ground arith, (ground arith, (ground arith, tt)))
legal_falls browser_validation_completed = (ground arith, (ground arith, tt))
legal_falls comparison_running = (ground arith, (ground arith, tt))
legal_falls packet_generation = (ground arith, (ground arith, tt))
legal_falls completed = tt
legal_falls failed = tt
legal_falls cancelled = tt

-- A state that is found by its name has the name, and what every state of the list has.
named-All :
    (P : UrlState → Type 0) (states : List UrlState) (text : String) (s : UrlState)
    → All P states
    → named states text ≡ some s
    → (state_text s ≡ text) × P s
named-All P [] text s all h = absurd (ground arith)
named-All P (t ∷ states) text s (p, all) h = elim (Bool-cases (state_text t == text)) [
  | inl h1 ↦
      subst (λ x. (state_text x ≡ text) × P x) (some-injective t s (ground (arith, h, h1)))
        ((eq_iff (state_text t) text).0 h1, p)
  | inr h0 ↦ named-All P states text s all (ground (arith, h, h0))
]

state_named : (s : UrlState) → named url_states (state_text s) ≡ some s
state_named queued = refl
state_named initial_tests_running = refl
state_named initial_tests_completed = refl
state_named browser_validation_running = refl
state_named browser_validation_completed = refl
state_named comparison_running = refl
state_named packet_generation = refl
state_named completed = refl
state_named failed = refl
state_named cancelled = refl

-- A transition leads from a known state to one of a smaller rank, which has the name that was asked for.
transition_falls :
    (from to : String) (next : UrlState)
    → assert_transition from to ≡ value next
    → (s : UrlState) × (named url_states from ≡ some s)
      × (state_text next ≡ to)
      × (rank next < rank s)
unfolding assert_transition
transition_falls from to next h = by_state (named url_states from) refl (named url_states to) h
  where
    by_legal :
        (s : UrlState) (l : Option UrlState)
        → named (legal s) to ≡ l
        → checked from (some s) l to ≡ value next
        → (state_text next ≡ to) × (rank next < rank s)
    by_legal s none q k = absurd (ground arith)
    by_legal s (some t) q k =
        let (same, less) = named-All (λ x. rank x < rank s) (legal s) to t (legal_falls s) q in
        let e : t ≡ next = ground (arith, k) in
        (subst (λ x. state_text x ≡ to) e same, subst (λ x. rank x < rank s) e less)

    by_state :
        (o : Option UrlState)
        → named url_states from ≡ o
        → (t : Option UrlState) → checked from t (named (legal_from o) to) to ≡ value next
        → (s : UrlState) × (named url_states from ≡ some s)
          × (state_text next ≡ to)
          × (rank next < rank s)
    by_state o q none k = absurd (ground arith)
    by_state none q (some t) k = absurd (ground arith)
    by_state (some s) q (some t) k =
        let (same, less) = by_legal s (named (legal s) to) refl k in (s, q, same, less)

rank_small : (s : UrlState) → rank s ≤ 7
rank_small queued = ground arith
rank_small initial_tests_running = ground arith
rank_small initial_tests_completed = ground arith
rank_small browser_validation_running = ground arith
rank_small browser_validation_completed = ground arith
rank_small comparison_running = ground arith
rank_small packet_generation = ground arith
rank_small completed = ground arith
rank_small failed = ground arith
rank_small cancelled = ground arith

-- A run from a state that is known is no longer than the state's rank.
length_falls :
    (from to : String) (states : List UrlState) (s : UrlState)
    → named url_states from ≡ some s
    → Course from states to
    → length states ≤ rank s
length_falls from to [] s q stay = omega arith
length_falls from to (next ∷ rest) s q (move {t = t} h p) =
    let (known, found, same, less) = transition_falls from t next h in
    let shorter =
      length_falls t to rest next (ap (named url_states) (sym same) ∙ state_named next) p in
    let e : known ≡ s = some-injective known s (sym found ∙ q) in
    omega (arith, shorter, less, ap rank e)

-- Whatever transitions of a URL the lifecycle lets through, from whatever status, there are at most seven.
pub transitions_end :
    (from to : String) (states : List UrlState) → Course from states to → length states ≤ 7
transitions_end from to [] p = omega arith
transitions_end from to (next ∷ rest) (move h p) =
    let (known, found, same, less) = transition_falls from _ next h in
    let bound = length_falls from to (next ∷ rest) known found (move h p) in
    omega (arith, bound, rank_small known)

-- ===== src/Contracts/Versions/Plan.antt =====
-- What `updatePlan` and `meetsMinimums` decide together.
use web_inspector.Prelude.{
  Bool, List, Option, String, [], arith, eq_iff, false, filter_by, if◌then◌else◌, not, refl, ◌==◌,
  ◌∷◌, ◌≡◌, string_eq,
}
use web_inspector.Prelude.Dict.{insert, lookup-insert}
use web_inspector.Contracts.Versions.{
  Versions, component_version_fields, is_behind, update_plan, version_of,
}
use web_inspector.Contracts.Versions.Compare.{compare_versions_self}

version_of-insert :
    (f g : String) (v : Option String) (m : Versions)
    → version_of g (insert f v m) ≡ (if f == g then v else version_of g m)
unfolding version_of
version_of-insert f g v m = rw (lookup-insert f g v m) (ground arith)

-- A node that brings one field to its desired version is behind in that field no more, and in
-- every other field as before.
pub is_behind-insert :
    (actual desired : Versions) (f g : String)
    → is_behind (insert f (version_of f desired) actual) desired g
      ≡ (if f == g then false else is_behind actual desired g)
unfolding is_behind
is_behind-insert actual desired f g = ground (
  arith,
  eq_iff f g,
  version_of-insert f g (version_of f desired) actual,
  compare_versions_self (version_of f desired),
)

pub without : String → List String → List String
without f = filter_by (λ g. not (f == g))

filter_by-without :
    (p q : String → Bool) (f : String)
    → ((g : String) → q g ≡ (if f == g then false else p g))
    → (gs : List String) → filter_by q gs ≡ without f (filter_by p gs)
unfolding without
filter_by-without p q f h [] = refl
filter_by-without p q f h (g ∷ gs) = ground (arith, h g, filter_by-without p q f h gs)

-- After a node has applied one update, its plan is the old plan without that field: updates
-- converge one component at a time, and none brings another field back.
pub update_plan-insert :
    (actual desired : Versions) (f : String)
    → (update_plan (insert f (version_of f desired) actual) desired).fields
      ≡ without f (update_plan actual desired).fields
unfolding update_plan
update_plan-insert actual desired f =
    filter_by-without (is_behind actual desired)
      (is_behind (insert f (version_of f desired) actual) desired) f
      (is_behind-insert actual desired f) component_version_fields

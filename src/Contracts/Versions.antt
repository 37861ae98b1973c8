-- ===== src/Contracts/Versions.antt =====
-- shared/contracts/versions.mjs: the comparison of versions, the compatibility gate, and the diff
-- of actual against desired versions. `1`, `0` and `-1` are `gt`, `eq` and `lt`. A version set is
-- the object `{ field: version }`. A segment is below
-- 2 ^ 53, where JavaScript's `Number` is exact.
pub mod Compare
pub mod Plan
mod Tests
use Prim.Native.Char.{code}
use web_inspector.Prelude.{
  ℕ, ◌+◌, ◌-◌, ◌*◌, Ordering, String, Bool, true, false, ◌&&◌, Option, none, some, List, [], ◌∷◌,
  ◌++◌, ltb, leb, max, zero, suc, length, get_or, truthy, if◌then◌else◌, ◌==◌, filter_by, exists,
  string_eq,
}
use web_inspector.Prelude.Dict.{Dict, lookup, insert, merge}

abbrev pub codes : String → List ℕ
codes String.[] = []
codes (String.◌∷◌ c s) = code c ∷ codes s

is_digit : ℕ → Bool
is_digit c = leb b'0' c && leb c b'9'

-- What ends a run of digits.
flush : Option ℕ → List ℕ
flush none = []
flush (some n) = n ∷ []

-- `.match(/\d+/g)?.map(Number) || []`; `run` is the number that the open run of digits spells.
digit_runs : Option ℕ → List ℕ → List ℕ
digit_runs run [] = flush run
digit_runs run (c ∷ s) =
    let longer = digit_runs (some (10 * get_or run 0 + (c - b'0'))) s in
    let closed = flush run ++ digit_runs none s in if is_digit c then longer else closed

unfoldable pub segments : Option String → List ℕ
unfolding digit_runs flush is_digit
segments none = []
segments (some v) = digit_runs none (codes v)

-- `a[i] || 0`
unfoldable pub segment : List ℕ → ℕ → ℕ
segment [] i = 0
segment (x ∷ a) zero = x
segment (x ∷ a) (suc i) = segment a i

-- The `for` loop, with the rounds that are left and the index `i`.
unfoldable pub compare_from : ℕ → ℕ → List ℕ → List ℕ → Ordering
compare_from zero i a b = Ordering.eq
compare_from (suc rounds) i a b =
    let rest = compare_from rounds (suc i) a b in
    if ltb (segment b i) (segment a i)
    then Ordering.gt
    else if ltb (segment a i) (segment b i)
    then Ordering.lt
    else rest

unfoldable pub compare_segments : List ℕ → List ℕ → Ordering
compare_segments a [] = Ordering.eq
compare_segments [] (y ∷ b) = Ordering.lt
compare_segments (x ∷ a) (y ∷ b) =
    compare_from (max (length (x ∷ a)) (length (y ∷ b))) 0 (x ∷ a) (y ∷ b)

unfoldable pub compare_versions : Option String → Option String → Ordering
compare_versions actual target = compare_segments (segments actual) (segments target)

-- `compareVersions(…) < 0`
abbrev pub is_older : Ordering → Bool
is_older Ordering.lt = true
is_older _ = false

-- A field of a version set may hold `null` or `undefined`.
abbrev pub Versions : Type 0
Versions = Dict String (Option String)

-- `versions[field]`
unfoldable pub version_of : String → Versions → Option String
unfolding lookup
version_of field versions = get_or (lookup field versions) none

-- `meetsMinimums(…)`: the fields of `failures`, in order; `ok` is that there is none.
unfoldable pub failures : Versions → Versions → Versions
failures versions minimums =
    filter_by (λ m. is_older (compare_versions (version_of m.0 versions) m.1)) minimums

unfoldable pub meets_minimums : Versions → Versions → Bool
unfolding failures
meets_minimums versions minimums = elim (failures versions minimums) [ [] ↦ true | _ ∷ _ ↦ false ]

abbrev pub component_version_fields : List String
component_version_fields =
    "controlPlaneAgentVersion" ∷ "agentVersion" ∷ "contractsVersion" ∷ "protocolVersion"
    ∷ "schemaVersion" ∷ []

-- The test of `updatePlan` for one field.
unfoldable pub is_behind : Versions → Versions → String → Bool
is_behind actual desired field =
    truthy (version_of field desired)
    && is_older (compare_versions (version_of field actual) (version_of field desired))

pub record UpdatePlan : Type 0 where
  pub update_agent : Bool
  pub update_supervisor : Bool
  pub fields : List String

unfoldable pub update_plan : Versions → Versions → UpdatePlan
unfolding is_behind
update_plan actual desired =
    let fields = filter_by (is_behind actual desired) component_version_fields in
    record {
      update_agent = exists (λ f. f == "agentVersion") fields;
      update_supervisor = exists (λ f. f == "controlPlaneAgentVersion") fields;
      fields = fields;
    }

unfoldable pub version_snapshot : Versions → Versions
unfolding merge insert
version_snapshot overrides =
    merge
      (("controlPlaneAgentVersion", some "3.0.0")
        ∷ ("agentVersion", some "3.0.0")
        ∷ ("contractsVersion", some "3.0.0")
        ∷ ("protocolVersion", some "1")
        ∷ ("schemaVersion", some "3.0")
        ∷ [])
      overrides

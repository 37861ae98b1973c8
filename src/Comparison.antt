-- ===== src/Comparison.antt =====
-- control-plane/comparison/classify.mjs: the status of a network arm from its nodes' results, and
-- the classification of a URL from its arms. A confidence is given in tenths.
pub mod Pooling
pub mod Blame
mod Tests
use web_inspector.Prelude.{
  Bool, List, Option, [], eqb, exists, false, filter_by, get_or, if◌then◌else◌, length, ltb, none,
  not, some, true, ℕ, ◌&&◌, ◌||◌, ◌∷◌,
}

-- The `ok` of a node's result, which may be undefined or null.
pub data OkField : Type 0 where
  undefined null : OkField
  given : Bool → OkField

abbrev pub is_defined : OkField → Bool
is_defined undefined = false
is_defined _ = true

-- `ok` as a condition.
abbrev pub is_truthy : OkField → Bool
is_truthy (given b) = b
is_truthy _ = false

-- `ok === false`
abbrev pub is_false : OkField → Bool
is_false (given b) = not b
is_false _ = false

pub data ArmStatus : Type 0 where
  ok fail mixed unavailable : ArmStatus

abbrev pub is_ok : ArmStatus → Bool
is_ok ok = true
is_ok _ = false

abbrev pub is_fail : ArmStatus → Bool
is_fail fail = true
is_fail _ = false

abbrev pub is_mixed : ArmStatus → Bool
is_mixed mixed = true
is_mixed _ = false

-- `armStatus(nodeResults)`, over the `ok` fields of the results.
unfoldable pub arm_status : List OkField → ArmStatus
arm_status node_results =
    let usable = filter_by is_defined node_results in
    let oks = length (filter_by is_truthy usable) in
    if eqb (length usable) 0
    then unavailable
    else if eqb oks (length usable)
    then ok
    else if eqb oks 0
    then fail
    else mixed

-- `[remotenet, client].filter(Boolean)`
given_arms : List (Option ArmStatus) → List ArmStatus
given_arms [] = []
given_arms (none ∷ arms) = given_arms arms
given_arms (some s ∷ arms) = s ∷ given_arms arms

-- `combineGsa(remotenet, client)`
unfoldable pub combine_gsa : Option ArmStatus → Option ArmStatus → ArmStatus
unfolding given_arms
combine_gsa remotenet client =
    let arms = given_arms (remotenet ∷ client ∷ []) in
    let oks = length (filter_by is_ok arms) in
    let fails = length (filter_by is_fail arms) in
    if eqb (length arms) 0
    then unavailable
    else if exists is_mixed arms
    then mixed
    else if ltb 0 oks && ltb 0 fails
    then mixed
    else if ltb 0 oks
    then ok
    else if ltb 0 fails
    then fail
    else unavailable

pub record Arms : Type 0 where
  pub azure_direct : Option ArmStatus
  pub gsa_remotenet : Option ArmStatus
  pub gsa_client : Option ArmStatus
  pub cloudflare_client : Option ArmStatus
  pub external_direct : Option ArmStatus

pub data Classification : Type 0 where
  healthy likely_gsa_impacting likely_cloudflare_impacting azure_direct_environment_issue :
      Classification
  azure_egress_or_region_issue common_destination_or_site_issue : Classification
  node_group_disagreement inconclusive pending : Classification

-- The arms that the decision was made on.
pub record Evidence : Type 0 where
  pub azure : ArmStatus
  pub gsa : ArmStatus
  pub cf : ArmStatus
  pub ext : ArmStatus

pub record Verdict : Type 0 where
  pub classification : Classification
  pub confidence : ℕ
  pub arms : Evidence

evidence : Arms → Evidence
evidence arms = record {
  azure = get_or arms.azure_direct unavailable;
  gsa = combine_gsa arms.gsa_remotenet arms.gsa_client;
  cf = get_or arms.cloudflare_client unavailable;
  ext = get_or arms.external_direct unavailable;
}

-- The `if` ladder of `classify`.
unfoldable pub decide_on : Evidence → Classification × ℕ
decide_on e =
    if is_mixed gsa
    then (node_group_disagreement, 5)
    else if is_ok azure && is_ok gsa
    then (if is_fail cf then (likely_cloudflare_impacting, 7) else (healthy, 9))
    else if is_ok azure && is_fail gsa
    then (likely_gsa_impacting, 8)
    else if is_fail azure && (is_ok gsa || is_ok cf)
    then (azure_direct_environment_issue, 7)
    else if is_fail azure && is_fail gsa && is_ok ext
    then (azure_egress_or_region_issue, 7)
    else if is_fail azure && is_fail gsa
    then (common_destination_or_site_issue, 6)
    else (inconclusive, 3)
  where
    open e use {azure, gsa, cf, ext}

unfoldable pub classify : Arms → Verdict
unfolding evidence decide_on combine_gsa
classify arms =
    let e = evidence arms in
    record { classification = (decide_on e).0; confidence = (decide_on e).1; arms = e }

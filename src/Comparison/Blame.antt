-- ===== src/Comparison/Blame.antt =====
-- When a URL is classified as healthy, and when an arm is blamed.
use web_inspector.Prelude.{◌≡◌, ◌≢◌, ◌⊎◌, arith, ◌↔◌}
use web_inspector.Comparison.{
  Classification, Evidence, azure_egress_or_region_issue, common_destination_or_site_issue,
  decide_on, fail, inconclusive, mixed, node_group_disagreement, ok, pending, unavailable, Arms,
  classify, evidence, azure_direct_environment_issue, healthy, likely_cloudflare_impacting,
  likely_gsa_impacting,
}

-- The decision as a table over the arms, independent of the order of the tests.
abbrev pub Justified : Classification → Evidence → Type 0
Justified healthy e = (e.azure ≡ ok) × (e.gsa ≡ ok) × (e.cf ≢ fail)
Justified likely_cloudflare_impacting e = (e.azure ≡ ok) × (e.gsa ≡ ok) × (e.cf ≡ fail)
Justified likely_gsa_impacting e = (e.azure ≡ ok) × (e.gsa ≡ fail)
Justified azure_direct_environment_issue e =
    (e.azure ≡ fail) × (e.gsa ≢ mixed) × ((e.gsa ≡ ok) ⊎ (e.cf ≡ ok))
Justified azure_egress_or_region_issue e =
    (e.azure ≡ fail) × (e.gsa ≡ fail) × (e.cf ≢ ok) × (e.ext ≡ ok)
Justified common_destination_or_site_issue e =
    (e.azure ≡ fail) × (e.gsa ≡ fail) × (e.cf ≢ ok) × (e.ext ≢ ok)
Justified node_group_disagreement e = e.gsa ≡ mixed
Justified inconclusive e =
    ((e.azure ≡ ok) × (e.gsa ≡ unavailable))
    ⊎ ((e.azure ≡ fail) × (e.gsa ≡ unavailable) × (e.cf ≢ ok))
    ⊎ (((e.azure ≡ mixed) ⊎ (e.azure ≡ unavailable)) × (e.gsa ≢ mixed))
Justified pending e = ⊥

pub Justified-of_decide_on :
    (c : Classification) (e : Evidence) → (decide_on e).0 ≡ c → Justified c e
unfolding decide_on
Justified-of_decide_on healthy e h = ground arith
Justified-of_decide_on likely_gsa_impacting e h = ground arith
Justified-of_decide_on likely_cloudflare_impacting e h = ground arith
Justified-of_decide_on azure_direct_environment_issue e h = ground arith
Justified-of_decide_on azure_egress_or_region_issue e h = ground arith
Justified-of_decide_on common_destination_or_site_issue e h = ground arith
Justified-of_decide_on node_group_disagreement e h = ground arith
Justified-of_decide_on inconclusive e h = ground arith
Justified-of_decide_on pending e h = ground arith

decide_on_of_Justified : (c : Classification) (e : Evidence) → Justified c e → (decide_on e).0 ≡ c
unfolding decide_on
decide_on_of_Justified healthy e h = ground arith
decide_on_of_Justified likely_gsa_impacting e h = ground arith
decide_on_of_Justified likely_cloudflare_impacting e h = ground arith
decide_on_of_Justified azure_direct_environment_issue e h = ground arith
decide_on_of_Justified azure_egress_or_region_issue e h = ground arith
decide_on_of_Justified common_destination_or_site_issue e h = ground arith
decide_on_of_Justified node_group_disagreement e h = ground arith
decide_on_of_Justified inconclusive e h = ground arith
decide_on_of_Justified pending e h = ground arith

-- A URL gets a classification exactly when the decision table justifies it on the arms; in
-- particular the table has one row for every combination of arm statuses, and `pending` is never
-- the outcome.
pub classify-Justified :
    (arms : Arms) (c : Classification)
    → ((classify arms).classification ≡ c) ↔ Justified c (classify arms).arms
unfolding classify
classify-Justified arms c =
    (Justified-of_decide_on c (evidence arms), decide_on_of_Justified c (evidence arms))

-- ===== src/Comparison/Tests.antt =====
-- Runs of the classification, and instances of its theorems.
use web_inspector.Prelude.{[], none, refl, some, true, ◌↔◌, ◌∷◌, ◌≡◌}
use web_inspector.Comparison.{
  Arms, arm_status, classify, combine_gsa, fail, given, null, ok, unavailable, undefined,
  likely_gsa_impacting,
}
use web_inspector.Comparison.Pooling.{combine_gsa-arm_status}
use web_inspector.Comparison.Blame.{Justified, classify-Justified}

abbrev gsa_down : Arms
gsa_down = record {
  azure_direct = some ok;
  gsa_remotenet = some fail;
  gsa_client = some unavailable;
  cloudflare_client = none;
  external_direct = some ok;
}

blames_gsa : (classify gsa_down).classification ≡ likely_gsa_impacting
unfolding classify
blames_gsa = refl

null_counts_as_failure : arm_status (null ∷ undefined ∷ []) ≡ fail
unfolding arm_status
null_counts_as_failure = refl

combine_gsa-arm_status_example :
    combine_gsa (some (arm_status (given true ∷ undefined ∷ []))) (some (arm_status (null ∷ [])))
    ≡ arm_status (given true ∷ undefined ∷ null ∷ [])
combine_gsa-arm_status_example = combine_gsa-arm_status (given true ∷ undefined ∷ []) (null ∷ [])

classify-Justified_example :
    ((classify gsa_down).classification ≡ likely_gsa_impacting)
    ↔ Justified likely_gsa_impacting (classify gsa_down).arms
classify-Justified_example = classify-Justified gsa_down likely_gsa_impacting

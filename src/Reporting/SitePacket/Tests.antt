-- ===== src/Reporting/SitePacket/Tests.antt =====
-- site-packet.mjs: packets of concrete results.
use web_inspector.Prelude.{
  [], every, false, none, not, refl, some, true, ◌==◌, ◌∷◌, ◌≡◌, List, string_eq,
}
use web_inspector.Reporting.SitePacket.{
  PacketRow, WorkerMessage, check_completeness, collect_artifacts, generate, have,
  required_artifacts,
}
use web_inspector.Reporting.SitePacket.Complete.{
  generate-Complete, has_evidence, recorded_rows, summarized_is_incomplete, Arrival,
}

abbrev failed_row : PacketRow
failed_row = record {
  node_name = "n1";
  stage = "browser_validation";
  ok = some false;
  artifact_refs = record { kind = "screenshot"; node_name = none } ∷ [];
}

test_missing :
    (generate "r1" "u1" "https://a.test" (failed_row ∷ []) []).missing
    ≡ record { node_name = "n1"; kind = "har" } ∷ []
unfolding generate check_completeness required_artifacts collect_artifacts have
test_missing = refl

abbrev test_message : WorkerMessage
test_message = record {
  job_id = some "u1::n1::browser_validation";
  stage = some "browser_validation";
  node_name = some "n1";
  url = some "https://a.test";
  ok = some true;
  reason = some "OK";
  artifact_refs = record { kind = "screenshot"; node_name = some "n1" } ∷ [];
  error = none;
}

generate-Complete_example :
    let m = generate "r1" "u1" "https://a.test" (failed_row ∷ []) [] in
    m.complete ≡ every (has_evidence m.artifacts) (failed_row ∷ [])
generate-Complete_example = generate-Complete "r1" "u1" "https://a.test" (failed_row ∷ []) []

abbrev test_arrivals : List Arrival
test_arrivals = ("n1", "browser_validation", test_message) ∷ []

summarized_is_incomplete_example :
    let m = generate "r1" "u1" "https://a.test" (recorded_rows test_arrivals) [] in
    (m.artifacts ≡ [])
    × (m.complete
        ≡ every
            (λ (r : PacketRow). not (r.stage == "browser_validation"))
            (recorded_rows test_arrivals))
summarized_is_incomplete_example = summarized_is_incomplete "r1" "u1" "https://a.test" test_arrivals

-- ===== src/Reporting/SitePacket/Complete.antt =====
-- site-packet.mjs: what a complete packet holds.
use Prim.Native.String.{◌++◌ as ◌++ₛ◌}
use web_inspector.Prelude.{
  Bool, List, String, [], ap, arith, eqb, every, exists, filter_by, if_cases, length, not, refl,
  ◌&&◌, ◌++◌, ◌==◌, ◌||◌, ◌∙◌, ◌∷◌, ◌≡◌, string_eq,
}
use web_inspector.Reporting.SitePacket.{
  Artifact, PacketRow, WorkerMessage, artifact_key, check_completeness, collect_artifacts,
  failed_validation, generate, have, recorded_row, required_artifacts, required_of,
  summarize_result,
}

-- An artifact of a node and a kind
abbrev pub is_of : String → String → Artifact → Bool
is_of node_name kind a = artifact_key a == (node_name ++ₛ (":" ++ₛ kind))

-- The evidence of a result: for a browser validation a screenshot, and a HAR if it failed.
abbrev pub has_evidence : List Artifact → PacketRow → Bool
has_evidence artifacts r =
    not (r.stage == "browser_validation")
    || exists (is_of r.node_name "screenshot") artifacts
      && (not (failed_validation r.ok) || exists (is_of r.node_name "har") artifacts)

none_missing :
    {A : Type 0} (p : A → Bool) (l : List A)
    → eqb (length (filter_by (λ x. not (p x)) l)) 0 ≡ every p l
none_missing p [] = refl
none_missing p (x ∷ l) = ground (arith, none_missing p l)

every-append :
    {A : Type 0} (p : A → Bool) (l m : List A) → every p (l ++ m) ≡ (every p l && every p m)
every-append p [] m = refl
every-append p (x ∷ l) m = ground (arith, every-append p l m)

required_row :
    (artifacts : List Artifact) (r : PacketRow)
    → every (have artifacts) (required_of r) ≡ has_evidence artifacts r
unfolding have
required_row artifacts r =
    if_cases (λ l. every (have artifacts) l ≡ has_evidence artifacts r)
      (r.stage == "browser_validation")
      (λ h1.
        if_cases (λ l. every (have artifacts) l ≡ has_evidence artifacts r) (failed_validation r.ok)
          (λ h2. ground (arith, h1, h2)) (λ h2. ground (arith, h1, h2)))
      (λ h1. ground (arith, h1))

required_rows :
    (artifacts : List Artifact) (rows : List PacketRow)
    → every (have artifacts) (required_artifacts rows) ≡ every (has_evidence artifacts) rows
unfolding required_artifacts
required_rows artifacts [] = refl
required_rows artifacts (r ∷ rows) =
    every-append (have artifacts) (required_of r) (required_artifacts rows)
    ∙ ground (arith, required_row artifacts r, required_rows artifacts rows)

-- A packet counts as complete exactly if every result has its evidence among the collected artifacts:
-- a browser validation a screenshot of its node, and a failed one a HAR of its node as well.
pub generate-Complete :
    (run_id url_id url : String) (results : List PacketRow) (extra : List Artifact)
    → let m = generate run_id url_id url results extra in
      m.complete ≡ every (has_evidence m.artifacts) results
unfolding generate check_completeness
generate-Complete run_id url_id url results extra =
    none_missing (have (extra ++ collect_artifacts results)) (required_artifacts results)
    ∙ required_rows (extra ++ collect_artifacts results) results

-- The results of worker messages, as they are summarized and recorded
abbrev pub Arrival : Type 0
Arrival = String × String × WorkerMessage

unfoldable pub recorded_rows : List Arrival → List PacketRow
recorded_rows [] = []
recorded_rows ((node_name, stage, msg) ∷ arrivals) =
    recorded_row node_name stage (summarize_result msg) ∷ recorded_rows arrivals

nothing_collected : (arrivals : List Arrival) → collect_artifacts (recorded_rows arrivals) ≡ []
unfolding collect_artifacts recorded_rows recorded_row summarize_result
nothing_collected [] = refl
nothing_collected ((node_name, stage, msg) ∷ arrivals) = nothing_collected arrivals

-- Whatever artifacts the workers report, a packet of summarized results collects none, and it is
-- complete exactly if none of the results is of a browser validation.
pub summarized_is_incomplete :
    (run_id url_id url : String) (arrivals : List Arrival)
    → let m = generate run_id url_id url (recorded_rows arrivals) [] in
      (m.artifacts ≡ [])
      × (m.complete
          ≡ every
              (λ (r : PacketRow). not (r.stage == "browser_validation"))
              (recorded_rows arrivals))
unfolding generate check_completeness
summarized_is_incomplete run_id url_id url arrivals = (
  nothing_collected arrivals,
  generate-Complete run_id url_id url (recorded_rows arrivals) []
      ∙ ap (λ l. every (has_evidence l) (recorded_rows arrivals)) (nothing_collected arrivals)
      ∙ no_evidence (recorded_rows arrivals),
)
  where
    no_evidence :
        (rows : List PacketRow)
        → every (has_evidence []) rows
          ≡ every (λ (r : PacketRow). not (r.stage == "browser_validation")) rows
    no_evidence [] = refl
    no_evidence (r ∷ rows) = ground (arith, no_evidence rows)

-- ===== src/Reporting/SitePacket.antt =====
-- control-plane/reporting/site-packet.mjs: the artifacts of a URL's packet, and whether they are
-- complete; and `summarizeResult` of control-plane-agent/core/index.mjs, which makes the results that
-- reach it. An artifact's other fields, the clock and the store are left out.
pub mod Complete
mod Tests
use Prim.Native.String.{◌++◌ as ◌++ₛ◌}
use web_inspector.Prelude.{
  Bool, List, Option, String, [], eqb, exists, false, filter_by, if◌then◌else◌, length, map, none,
  not, some, text_or, true, truthy, ◌++◌, ◌==◌, ◌∷◌, string_eq,
}

pub record Ref : Type 0 where
  pub kind : String
  pub node_name : Option String

-- A result of the URL's bucket
pub record PacketRow : Type 0 where
  pub node_name : String
  pub stage : String
  pub ok : Option Bool
  pub artifact_refs : List Ref

-- An artifact with its node, or one that is required
pub record Artifact : Type 0 where
  pub node_name : String
  pub kind : String

-- `{ ...a, nodeName: a.nodeName || r.nodeName }`
abbrev pub placed : PacketRow → Ref → Artifact
placed r a = record { node_name = text_or a.node_name r.node_name; kind = a.kind }

unfoldable pub collect_artifacts : List PacketRow → List Artifact
collect_artifacts [] = []
collect_artifacts (r ∷ rows) = map (placed r) r.artifact_refs ++ collect_artifacts rows

abbrev pub failed_validation : Option Bool → Bool
failed_validation (some false) = true
failed_validation ok = false

abbrev pub required_of : PacketRow → List Artifact
required_of r =
    let shot : Artifact = record { node_name = r.node_name; kind = "screenshot" } in
    let har : Artifact = record { node_name = r.node_name; kind = "har" } in
    if r.stage == "browser_validation"
    then (if failed_validation r.ok then shot ∷ har ∷ [] else shot ∷ [])
    else []

unfoldable pub required_artifacts : List PacketRow → List Artifact
required_artifacts [] = []
required_artifacts (r ∷ rows) = required_of r ++ required_artifacts rows

-- `${nodeName}:${kind}`
abbrev pub artifact_key : Artifact → String
artifact_key a = a.node_name ++ₛ (":" ++ₛ a.kind)

-- `have.has(key)`
unfoldable pub have : List Artifact → Artifact → Bool
have artifacts wanted = exists (λ a. artifact_key a == artifact_key wanted) artifacts

unfoldable pub check_completeness : List Artifact → List Artifact → Bool × List Artifact
check_completeness required artifacts =
    let missing = filter_by (λ r. not (have artifacts r)) required in
    (eqb (length missing) 0, missing)

pub record Manifest : Type 0 where
  pub run_id : String
  pub url_id : String
  pub url : String
  pub results : List PacketRow
  pub artifacts : List Artifact
  pub required : List Artifact
  pub missing : List Artifact
  pub complete : Bool

-- `generate(runId, urlRecord, { results, artifactRefs })`; `extra` are the `artifactRefs`.
unfoldable pub generate : String → String → String → List PacketRow → List Artifact → Manifest
unfolding check_completeness
generate run_id url_id url results extra =
    let collected = extra ++ collect_artifacts results in
    let required = required_artifacts results in
    let (complete, missing) = check_completeness required collected in
    record {
      run_id = run_id;
      url_id = url_id;
      url = url;
      results = results;
      artifacts = collected;
      required = required;
      missing = missing;
      complete = complete;
    }

-- What the worker reports for a job
pub record WorkerMessage : Type 0 where
  pub job_id : Option String
  pub stage : Option String
  pub node_name : Option String
  pub url : Option String
  pub ok : Option Bool
  pub reason : Option String
  pub artifact_refs : List Ref
  pub error : Option String

-- What comes up the channel as a result; `artifact_refs` is empty where the object has no such field.
pub record Summary : Type 0 where
  pub job_id : Option String
  pub stage : Option String
  pub node_name : Option String
  pub url : Option String
  pub ok : Option Bool
  pub reason : Option String
  pub error : Option String
  pub artifact_refs : List Ref

-- `text || null`
abbrev pub or_null : Option String → Option String
or_null o = if truthy o then o else none

unfoldable pub summarize_result : WorkerMessage → Summary
summarize_result msg = record {
  job_id = or_null msg.job_id;
  stage = or_null msg.stage;
  node_name = or_null msg.node_name;
  url = or_null msg.url;
  ok = msg.ok;
  reason = or_null msg.reason;
  error = or_null msg.error;
  artifact_refs = [];
}

-- What `recordResult` stores for the job of a node and a stage: `{ ...summary, nodeName, stage }`
unfoldable pub recorded_row : String → String → Summary → PacketRow
recorded_row node_name stage summary = record {
  node_name = node_name;
  stage = stage;
  ok = summary.ok;
  artifact_refs = summary.artifact_refs;
}

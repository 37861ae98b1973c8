-- ===== src/Scheduler/Orchestrator/State.antt =====
-- The state of run-orchestrator.mjs, the ids that it builds, and the dispatch of a stage.
use Prim.Native.String.{◌++◌ as ◌++ₛ◌, ◌∷◌ as ◌∷ₛ◌}
use Prim.Native.Char.{Char, code}
use web_inspector.Prelude.{
  Bool, List, Option, String, [], eqb, every, false, if◌then◌else◌, length, ltb, none, not, some,
  true, ◌&&◌, ◌++◌, ◌==◌, ◌||◌, ◌∷◌, string_eq,
}
use web_inspector.Prelude.Dict.{Dict, insert, lookup}
use web_inspector.Comparison.{Classification, OkField, Verdict, inconclusive, pending}
use web_inspector.Contracts.Nodes.{NodeType}

pub data UrlStatus : Type 0 where
  initial_tests_running browser_validation_running completed failed blocked : UrlStatus

pub data Stage : Type 0 where
  initial_test browser_validation : Stage
  other_stage : String → Stage

abbrev pub stage_text : Stage → String
stage_text initial_test = "initial_test"
stage_text browser_validation = "browser_validation"
stage_text (other_stage s) = s

abbrev pub stage_of : String → Stage
stage_of s =
    if s == "initial_test"
    then initial_test
    else if s == "browser_validation"
    then browser_validation
    else other_stage s

pub record Selected : Type 0 where
  pub node_name : String
  pub node_type : NodeType

-- What `selection.selectForUrl()` answers; `unmet` is only passed on.
pub record Selection : Type 0 where
  pub selected : List Selected
  pub can_dispatch : Bool

pub record Url : Type 0 where
  pub id : String
  pub run_id : String
  pub url : String
  pub status : UrlStatus
  pub selected_nodes : List Selected
  pub classification : Classification

pub data RunStatus : Type 0 where
  running completed_run : RunStatus

abbrev pub is_completed_run : RunStatus → Bool
is_completed_run running = false
is_completed_run completed_run = true

pub record Run : Type 0 where
  pub id : String
  pub status : RunStatus
  pub url_ids : List String

pub record Job : Type 0 where
  pub id : String
  pub url_id : String
  pub node_name : String
  pub node_type : Option NodeType
  pub stage : Stage

-- What a worker reports; `reason` and the rest are only passed on.
pub record Summary : Type 0 where
  pub job_id : String
  pub ok_field : OkField

pub record Rec : Type 0 where
  pub node_name : String
  pub node_type : Option NodeType
  pub stage : Stage
  pub ok_field : OkField

pub record Orchestrator : Type 0 where
  pub runs : Dict String Run
  pub urls : Dict String Url
  pub jobs : Dict String Job
  pub results : Dict String (Dict String Rec)
  pub comparisons : Dict String Verdict
  pub dispatching : List Job

abbrev pub empty : Orchestrator
empty = record { runs = []; urls = []; jobs = []; results = []; comparisons = []; dispatching = [] }

-- `${nodeName}:${stage}`
unfoldable pub result_key : String → Stage → String
result_key name stage = name ++ₛ (":" ++ₛ stage_text stage)

-- `${url.id}::${node.nodeName}::${stage}`
unfoldable pub job_key : String → String → Stage → String
job_key url_id name stage = url_id ++ₛ ("::" ++ₛ (name ++ₛ ("::" ++ₛ stage_text stage)))

is_colon : Char → Bool
is_colon c = eqb (code c) b':'

-- `s.split("::")`; `part` is the part that is being read.
split_parts : String → String → List String
split_parts part String.[] = part ∷ []
split_parts part (String.◌∷◌ c String.[]) = (part ++ₛ (c ∷ₛ String.[])) ∷ []
split_parts part (String.◌∷◌ c (String.◌∷◌ d s)) =
    let closed = split_parts "" s in
    let longer = split_parts (part ++ₛ (c ∷ₛ String.[])) (d ∷ₛ s) in
    if is_colon c && is_colon d then part ∷ closed else longer

-- The job of an id that no dispatch has recorded: its first three parts, if none is empty.
job_of_parts : String → List String → Option Job
job_of_parts id (url_id ∷ name ∷ stage ∷ _) =
    if url_id == "" || name == "" || stage == ""
    then none
    else some (record {
      id = id;
      url_id = url_id;
      node_name = name;
      node_type = none;
      stage = stage_of stage;
    })
job_of_parts id _ = none

-- `parseJobId(jobId)`
unfoldable pub parse_job_id : String → Option Job
unfolding split_parts is_colon job_of_parts
parse_job_id id = job_of_parts id (split_parts "" id)

-- `runs.set(run.id, run)`, and so for a URL.
abbrev pub put_run : Orchestrator → Run → Orchestrator
put_run s run = record s { runs = insert run.id run s.runs }

abbrev pub put_url : Orchestrator → Url → Orchestrator
put_url s url = record s { urls = insert url.id url s.urls }

-- A completed run that is given work runs again.
unfoldable pub reopen : Run → Run
reopen run = if is_completed_run run.status then record run { status = running } else run

unfoldable pub new_url : Run → String → String → Selection → Url
new_url run url url_id sel = record {
  id = url_id;
  run_id = run.id;
  url = url;
  status = if sel.can_dispatch then initial_tests_running else blocked;
  selected_nodes = sel.selected;
  classification = if sel.can_dispatch then pending else inconclusive;
}

-- `urls.set`, `run.urlIds.push`, `resultsByUrl.set`
unfoldable pub add_url : Orchestrator → Run → Url → Orchestrator
add_url s run url = record s {
  runs = insert run.id (record run { url_ids = run.url_ids ++ url.id ∷ [] }) s.runs;
  urls = insert url.id url s.urls;
  results = insert url.id [] s.results;
}

abbrev pub job_for_node : Url → Stage → Selected → Job
job_for_node url stage node = record {
  id = job_key url.id node.node_name stage;
  url_id = url.id;
  node_name = node.node_name;
  node_type = some node.node_type;
  stage = stage;
}

-- The loop of `dispatchStage`.
unfoldable pub dispatch_nodes : Orchestrator → Url → Stage → List Selected → Orchestrator
dispatch_nodes s url stage [] = s
dispatch_nodes s url stage (node ∷ nodes) =
    let job = job_for_node url stage node in
    let sent = record s {
      jobs = insert job.id job s.jobs;
      dispatching = s.dispatching ++ job ∷ [];
    } in
    dispatch_nodes sent url stage nodes

unfoldable pub dispatch_stage : Orchestrator → Url → Stage → Orchestrator
unfolding dispatch_nodes
dispatch_stage s url stage = dispatch_nodes s url stage url.selected_nodes

-- `terminal.has(status)`
abbrev pub is_terminal : UrlStatus → Bool
is_terminal completed = true
is_terminal failed = true
is_terminal blocked = true
is_terminal _ = false

-- `terminal.has(urls.get(id)?.status)`
unfoldable pub url_is_terminal : Dict String Url → String → Bool
url_is_terminal urls id = elim (lookup id urls) [ none ↦ false | some url ↦ is_terminal url.status ]

-- `run.urlIds.length > 0 && run.urlIds.every(…)`
unfoldable pub all_done : Dict String Url → Run → Bool
unfolding url_is_terminal
all_done urls run = ltb 0 (length run.url_ids) && every (url_is_terminal urls) run.url_ids

unfoldable pub maybe_complete_run : Orchestrator → String → Orchestrator
unfolding all_done
maybe_complete_run s run_id = elim (lookup run_id s.runs) [
  | none ↦ s
  | some run ↦
      if is_completed_run run.status
      then s
      else if not (all_done s.urls run)
      then s
      else record s { runs = insert run_id (record run { status = completed_run }) s.runs }
]

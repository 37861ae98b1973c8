-- ===== src/Scheduler/Orchestrator.antt =====
-- control-plane/scheduler/run-orchestrator.mjs: runs, their URLs, the results that arrive for them,
-- and the state machine that a URL goes through. The maps are those of `createRunOrchestrator`;
-- `dispatching` holds the jobs whose `sendCommand` promise has not settled yet, oldest first. The
-- ids are the caller's fresh ones, and `normalizeUrl` is a parameter. The copies in the store, the
-- event log and the evidence packet are not modelled.
pub mod State
pub mod Results
pub mod Settling
pub mod Histories
pub mod Gate
pub mod Earned
pub mod Reopening
mod Tests
use web_inspector.Scheduler.Orchestrator.Results.{on_result, settle_dispatch}
use web_inspector.Prelude.{
  Bool, List, Option, Result, String, [], if◌then◌else◌, none, some, throw, true, value, ◌∷◌, false,
  string_eq,
}
use web_inspector.Prelude.Dict.{lookup}
use web_inspector.Scheduler.Orchestrator.State.{
  Orchestrator, Run, Selection, Url, add_url, dispatch_stage, initial_test, is_completed_run,
  maybe_complete_run, new_url, put_run, reopen, running, Summary,
}

pub data Error : Type 0 where
  unknown_run invalid_url : Error

module _ (normalize : String → Option String) where
  -- The part of `queueUrl` behind `normalizeUrl`.
  unfoldable pub enqueue :
      Orchestrator → Run → String → String → Selection → Bool → Orchestrator × Result Error Url
  unfolding new_url add_url dispatch_stage maybe_complete_run
  enqueue s run url url_id sel defer =
      let rec = new_url run url url_id sel in
      let added = add_url s run rec in
      let sent = if sel.can_dispatch then dispatch_stage added rec initial_test else added in
      (if defer then sent else maybe_complete_run sent run.id, value rec)

  -- `queueUrl(runId, rawUrl, { deferComplete })`
  unfoldable pub queue_url :
      Orchestrator → String → String → String → Selection → Bool → Orchestrator × Result Error Url
  unfolding reopen enqueue
  queue_url s run_id raw url_id sel defer = elim (lookup run_id s.runs) [
    | none ↦ (s, throw unknown_run)
    | some run ↦
        let open_run = reopen run in
        let s' = if is_completed_run run.status then put_run s open_run else s in
        elim (normalize raw) [
          | none ↦ (s', throw invalid_url)
          | some url ↦ enqueue s' open_run url url_id sel defer
        ]
  ]

  -- The loop of `createRun`, over the raw URL, the fresh id and the selection of each URL; an error
  -- ends it.
  unfoldable pub queue_urls :
      Orchestrator
      → String
      → List (String × String × Selection)
      → Orchestrator × Result Error (Unit {0})
  queue_urls s run_id [] = (s, value tt)
  queue_urls s run_id ((raw, url_id, sel) ∷ rest) =
      let (s', r) = queue_url s run_id raw url_id sel true in
      let more = queue_urls s' run_id rest in elim r [ value _ ↦ more | throw e ↦ (s', throw e) ]

  -- `createRun({ urls })`
  unfoldable pub create_run :
      Orchestrator
      → String
      → List (String × String × Selection)
      → Orchestrator × Result Error (Unit {0})
  unfolding queue_urls maybe_complete_run
  create_run s run_id urls =
      let made = put_run s (record { id = run_id; status = running; url_ids = [] }) in
      let (s', r) = queue_urls made run_id urls in
      elim r [ value _ ↦ (maybe_complete_run s' run_id, value tt) | throw e ↦ (s', throw e) ]

-- What happens to an orchestrator: its methods are called, with fresh ids for what they make, and
-- the promises of its dispatches settle.
pub data Event : Type 0 where
  create_event : String → List (String × String × Selection) → Event
  queue_event : (run_id raw url_id : String) → Selection → Event
  result_event : Summary → Event
  settle_event : Bool → Event

unfoldable pub step : (String → Option String) → Orchestrator → Event → Orchestrator
step normalize s (create_event run_id urls) = (create_run normalize s run_id urls).0
step normalize s (queue_event run_id raw url_id sel) =
    (queue_url normalize s run_id raw url_id sel false).0
step normalize s (result_event summary) = on_result s summary
step normalize s (settle_event sent) = settle_dispatch s sent

-- ===== src/Scheduler/Orchestrator/Reopening.antt =====
-- A completed run that is asked for a URL which `normalizeUrl` refuses runs on with nothing to do.
use web_inspector.Prelude.{Bool, Option, String, none, some, throw, ◌≡◌, arith, string_eq}
use web_inspector.Prelude.Dict.{lookup, lookup-insert_self}
use web_inspector.Scheduler.Orchestrator.{invalid_url, queue_url}
use web_inspector.Scheduler.Orchestrator.State.{
  Orchestrator, Run, Selection, completed_run, running,
}

module _ (normalize : String → Option String) where
  -- `queueUrl` reopens a completed run before it validates the URL: on an invalid one it reports
  -- the error and leaves the run `running`, although each of its URLs is as terminal as before.
  pub invalid_url_reopens :
      (s : Orchestrator) (run : Run) (raw url_id : String) (sel : Selection) (defer : Bool)
      → lookup run.id s.runs ≡ some run
      → run.status ≡ completed_run
      → normalize raw ≡ none
      → let (t, r) = queue_url normalize s run.id raw url_id sel defer in
        (r ≡ throw invalid_url)
        × (lookup run.id t.runs ≡ some (record run { status = running }))
        × (t.urls ≡ s.urls)
  unfolding queue_url
  invalid_url_reopens s run raw url_id sel defer e c bad =
      let opened : Run = record run { status = running } in
      ground (arith, lookup-insert_self run.id opened s.runs)

-- ===== src/Scheduler/Lifecycle.antt =====
-- control-plane/scheduler/lifecycle.mjs: the legal transitions of a URL, and the gate before its
-- completion. The store of `transition` is left out.
pub mod Courses
mod Tests
use Prim.Native.String.{◌++◌ as ◌++ₛ◌}
use web_inspector.Prelude.{
  Bool, List, Option, Result, String, [], every, exists, false, filter_by, find, if◌then◌else◌,
  length, ltb, none, not, some, throw, true, value, ◌&&◌, ◌==◌, ◌||◌, ◌∷◌, string_eq,
}

pub data UrlState : Type 0 where
  queued initial_tests_running initial_tests_completed browser_validation_running : UrlState
  browser_validation_completed comparison_running packet_generation completed failed cancelled :
      UrlState

-- `LEGAL`
abbrev pub legal : UrlState → List UrlState
legal queued = initial_tests_running ∷ cancelled ∷ []
legal initial_tests_running = initial_tests_completed ∷ failed ∷ cancelled ∷ []
legal initial_tests_completed = browser_validation_running ∷ comparison_running ∷ cancelled ∷ []
legal browser_validation_running = browser_validation_completed ∷ failed ∷ cancelled ∷ []
legal browser_validation_completed = comparison_running ∷ cancelled ∷ []
legal comparison_running = packet_generation ∷ failed ∷ []
legal packet_generation = completed ∷ failed ∷ []
legal completed = []
legal failed = []
legal cancelled = []

-- The names in `URL_STATES`
abbrev pub state_text : UrlState → String
state_text queued = "queued"
state_text initial_tests_running = "initial_tests_running"
state_text initial_tests_completed = "initial_tests_completed"
state_text browser_validation_running = "browser_validation_running"
state_text browser_validation_completed = "browser_validation_completed"
state_text comparison_running = "comparison_running"
state_text packet_generation = "packet_generation"
state_text completed = "completed"
state_text failed = "failed"
state_text cancelled = "cancelled"

abbrev pub url_states : List UrlState
url_states =
    queued ∷ initial_tests_running ∷ initial_tests_completed ∷ browser_validation_running
    ∷ browser_validation_completed ∷ comparison_running ∷ packet_generation ∷ completed ∷ failed
    ∷ cancelled ∷ []

abbrev pub named : List UrlState → String → Option UrlState
named states text = find (λ s. state_text s == text) states

abbrev pub checked : String → Option UrlState → Option UrlState → String → Result String UrlState
checked from none legal_one to = throw ("unknown url state: " ++ₛ to)
checked from (some s) none to = throw ("illegal transition " ++ₛ (from ++ₛ (" -> " ++ₛ to)))
checked from (some s) (some next) to = value next

-- `LEGAL[from] || []`
abbrev pub legal_from : Option UrlState → List UrlState
legal_from none = []
legal_from (some s) = legal s

unfoldable pub assert_transition : String → String → Result String UrlState
assert_transition from to =
    checked from (named url_states to) (named (legal_from (named url_states from)) to) to

pub record StageJob : Type 0 where
  pub stage : String
  pub status : String

pub record StageResult : Type 0 where
  pub stage : String
  pub ok : Option Bool

-- `isStageComplete`
unfoldable pub is_stage_complete : List StageJob → String → Bool
is_stage_complete jobs stage =
    let stage_jobs = filter_by (λ (j : StageJob). j.stage == stage) jobs in
    ltb 0 (length stage_jobs)
    && every
        (λ (j : StageJob).
          j.status == "completed"
          || j.status == "failed"
          || j.status == "timed_out"
          || j.status == "cancelled")
        stage_jobs

abbrev pub is_false : Option Bool → Bool
is_false (some false) = true
is_false o = false

unfoldable pub needs_browser_validation : List StageResult → Bool
needs_browser_validation results =
    exists (λ (r : StageResult). r.stage == "initial_test" && is_false r.ok) results

-- `tryComplete`: whether the URL completed, and the reason
unfoldable pub try_complete : List StageJob → List StageResult → Bool × String
unfolding is_stage_complete needs_browser_validation
try_complete jobs results =
    if not (is_stage_complete jobs "initial_test")
    then (false, "initial tests pending")
    else if needs_browser_validation results && not (is_stage_complete jobs "browser_validation")
    then (false, "browser validation pending")
    else (false, "comparison/packet not yet implemented")

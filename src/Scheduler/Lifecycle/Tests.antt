-- ===== src/Scheduler/Lifecycle/Tests.antt =====
-- lifecycle.mjs: transitions of concrete states.
use web_inspector.Prelude.{[], false, refl, some, throw, ◌∷◌, ◌≡◌}
use web_inspector.Scheduler.Lifecycle.{
  assert_transition, comparison_running, completed, initial_tests_completed, initial_tests_running,
  is_stage_complete, needs_browser_validation, packet_generation, try_complete,
}
use web_inspector.Scheduler.Lifecycle.Courses.{Course, move, stay}

test_skip : assert_transition "queued" "completed" ≡ throw "illegal transition queued -> completed"
unfolding assert_transition
test_skip = refl

test_unknown : assert_transition "queued" "done" ≡ throw "unknown url state: done"
unfolding assert_transition
test_unknown = refl

test_gate :
    try_complete
      (record { stage = "initial_test"; status = "completed" } ∷ [])
      (record { stage = "initial_test"; ok = some false } ∷ [])
    ≡ (false, "browser validation pending")
unfolding try_complete is_stage_complete needs_browser_validation
test_gate = refl

to_completed :
    Course "queued"
      (initial_tests_running ∷ initial_tests_completed ∷ comparison_running ∷ packet_generation
        ∷ completed ∷ [])
      "completed"
unfolding assert_transition
to_completed = move {t = "initial_tests_running"} refl (
    move {t = "initial_tests_completed"} refl (
      move {t = "comparison_running"} refl
        (move {t = "packet_generation"} refl (move {t = "completed"} refl stay))))

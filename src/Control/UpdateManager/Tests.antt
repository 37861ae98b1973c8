-- ===== src/Control/UpdateManager/Tests.antt =====
-- Runs of the rollout, and instances of its theorems.
use web_inspector.Prelude.{
  List, Option, String, [], arith, length, refl, some, ◌∷◌, ◌≡◌, ◌≤◌, string_eq, option_eq,
}
use web_inspector.Prelude.Dict.{insert, lookup}
use web_inspector.Control.UpdateManager.{
  Policy, failed_outcome, mem_name, pick_rollout_batch, record_outcome, rollout_key, state_for,
  succeeded_outcome,
}
use web_inspector.Control.UpdateManager.Safety.{
  Call, call, calls, calls-in_flight_le, clear_call, outcome_call, pick_call, start,
}
use web_inspector.Control.UpdateManager.Halting.{canary_first, failure_halts, full_rollout_waits}

abbrev small_policy : Policy
small_policy = record { canary_size = 1; batch_size = 2; max_in_flight = 2 }

abbrev three_nodes : List (Option String)
three_nodes = some "vm1" ∷ some "vm2" ∷ some "vm3" ∷ []

abbrev first_wave : List Call
first_wave =
    pick_call "agent" "3.1" three_nodes
    ∷ outcome_call "agent" "3.1" (some "vm1") succeeded_outcome
    ∷ pick_call "agent" "3.1" (some "vm2" ∷ some "vm3" ∷ [])
    ∷ []

second_wave_in_flight :
    (state_for (calls (start [] small_policy) first_wave) (rollout_key "agent" "3.1")).in_flight
    ≡ some "vm2" ∷ some "vm3" ∷ []
unfolding state_for calls call pick_rollout_batch record_outcome rollout_key mem_name lookup insert
second_wave_in_flight = refl

calls-in_flight_le_example :
    length
      (state_for (calls (start [] small_policy) first_wave) (rollout_key "agent" "3.1")).in_flight
    ≤ 2
calls-in_flight_le_example = calls-in_flight_le [] small_policy first_wave "agent" "3.1"

failure_halts_example :
    let v =
      calls
        (record_outcome (start [] small_policy) "agent" "3.1" (some "vm1") failed_outcome)
        (clear_call "agent" "3.0" ∷ []) in
    (pick_rollout_batch v "agent" "3.1" three_nodes).0 ≡ []
unfolding rollout_key
failure_halts_example =
    failure_halts (start [] small_policy) "agent" "3.1" (some "vm1") (clear_call "agent" "3.0" ∷ [])
      three_nodes refl

canary_first_example :
    let u = calls (start [] small_policy) (pick_call "agent" "3.1" three_nodes ∷ []) in
    length (pick_rollout_batch u "agent" "3.1" three_nodes).0 ≤ 1
canary_first_example =
    canary_first [] small_policy "agent" "3.1" (pick_call "agent" "3.1" three_nodes ∷ [])
      three_nodes refl

full_rollout_waits_example :
    (pick_rollout_batch
      (calls (calls (start [] small_policy) first_wave) (clear_call "agent" "3.1" ∷ []))
      "agent"
      "3.1"
      three_nodes).0
    ≡ []
unfolding state_for calls call pick_rollout_batch record_outcome rollout_key mem_name lookup insert
full_rollout_waits_example =
    full_rollout_waits (calls (start [] small_policy) first_wave) "agent" "3.1"
      (clear_call "agent" "3.1" ∷ []) three_nodes (omega arith) refl

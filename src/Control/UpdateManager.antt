-- ===== src/Control/UpdateManager.antt =====
-- control-plane/control/update-manager.mjs: the desired versions, and the staged rollout of each
-- `component@version`. A node is known to it by its `nodeName`, which is undefined until the node
-- has registered.
pub mod Safety
pub mod Halting
mod Tests
use Prim.Native.String.{◌++◌ as ◌++ₛ◌}
use web_inspector.Prelude.{
  Bool, List, Option, String, [], eqb, exists, false, filter_by, get_or, if◌then◌else◌, length, min,
  not, take, true, ℕ, ◌++◌, ◌-◌, ◌==◌, ◌∷◌, string_eq, option_eq,
}
use web_inspector.Prelude.Dict.{Dict, insert, lookup, merge}
use web_inspector.Contracts.Versions.{Versions}

pub data Phase : Type 0 where
  canary rolling : Phase

abbrev pub is_canary : Phase → Bool
is_canary canary = true
is_canary rolling = false

pub record Rollout : Type 0 where
  pub phase : Phase
  pub canary_ok : Bool
  pub failed : Bool
  pub in_flight : List (Option String)  -- a `Set`: no name stands twice

pub record Policy : Type 0 where
  pub canary_size : ℕ
  pub batch_size : ℕ
  pub max_in_flight : ℕ

pub record UpdateManager : Type 0 where
  pub desired : Versions
  pub policy : Policy
  pub rollouts : Dict String Rollout

-- `${component}@${version}`
unfoldable pub rollout_key : String → String → String
rollout_key component version = component ++ₛ ("@" ++ₛ version)

abbrev pub new_rollout : Rollout
new_rollout = record { phase = canary; canary_ok = false; failed = false; in_flight = [] }

-- `stateFor(component, version)`; what it adds to the map, the caller's write keeps.
unfoldable pub state_for : UpdateManager → String → Rollout
state_for u key = get_or (lookup key u.rollouts) new_rollout

abbrev pub with_state : UpdateManager → String → Rollout → UpdateManager
with_state u key st = record u { rollouts = insert key st u.rollouts }

-- `set.has(name)`
unfoldable pub mem_name : Option String → List (Option String) → Bool
mem_name n s = exists (λ m. m == n) s

-- `set.add(name)`
unfoldable pub add_name : Option String → List (Option String) → List (Option String)
unfolding mem_name
add_name n s = if mem_name n s then s else s ++ n ∷ []

-- `set.delete(name)`
unfoldable pub delete_name : Option String → List (Option String) → List (Option String)
delete_name n s = filter_by (λ m. not (m == n)) s

-- `batch.forEach((n) => st.inFlight.add(n.nodeName))`
unfoldable pub add_names : List (Option String) → List (Option String) → List (Option String)
unfolding add_name
add_names [] s = s
add_names (n ∷ ns) s = add_names ns (add_name n s)

-- `Object.assign(desired, next)`
unfoldable pub set_desired : UpdateManager → Versions → UpdateManager
set_desired u next = record u { desired = merge u.desired next }

-- How many nodes may be updated now, and which of them.
unfoldable pub batch_limit : Policy → Rollout → ℕ
batch_limit p st =
    let capacity = p.max_in_flight - length st.in_flight in
    if is_canary st.phase then min p.canary_size capacity else min p.batch_size capacity

-- `pickRolloutBatch(component, version, nodesNeeding)`, over the names of the nodes. On the early
-- returns `stateFor` has stored the state that it made, and nothing else has changed.
unfoldable pub pick_rollout_batch :
    UpdateManager → String → String → List (Option String) → List (Option String) × UpdateManager
unfolding batch_limit add_names state_for
pick_rollout_batch u component version nodes_needing =
    let key = rollout_key component version in
    let st = state_for u key in
    let eligible = filter_by (λ n. not (mem_name n st.in_flight)) nodes_needing in
    let batch = take (batch_limit u.policy st) eligible in
    if st.failed
    then ([], with_state u key st)
    else if eqb (u.policy.max_in_flight - length st.in_flight) 0
    then ([], with_state u key st)
    else (batch, with_state u key (record st { in_flight = add_names batch st.in_flight }))

-- The statuses of an outcome: "failed", "succeeded", or any other text.
pub data Outcome : Type 0 where
  failed_outcome succeeded_outcome other_outcome : Outcome

-- The state that `recordOutcome` leaves.
unfoldable pub after_outcome : Rollout → Option String → Outcome → Rollout
unfolding delete_name
after_outcome st name failed_outcome = record st {
  in_flight = delete_name name st.in_flight;
  failed = true;
}
after_outcome st name succeeded_outcome =
    let left = record st { in_flight = delete_name name st.in_flight } in
    if is_canary st.phase then record left { canary_ok = true; phase = rolling } else left
after_outcome st name other_outcome = record st { in_flight = delete_name name st.in_flight }

unfoldable pub record_outcome :
    UpdateManager → String → String → Option String → Outcome → UpdateManager
unfolding after_outcome state_for
record_outcome u component version name status =
    let key = rollout_key component version in
    with_state u key (after_outcome (state_for u key) name status)

unfoldable pub clear_halt : UpdateManager → String → String → UpdateManager
unfolding state_for
clear_halt u component version =
    let key = rollout_key component version in
    with_state u key (record (state_for u key) { failed = false })

-- ===== src/Control/UpdateManager/Safety.antt =====
-- The rollout never has more nodes in flight than the policy allows, and a halted one starts none.
use web_inspector.Prelude.{
  List, Option, String, [], arith, if◌then◌else◌, length, length-append, length-filter_by,
  length-take, not, take, ◌+◌, ◌-◌, ◌==◌, ◌∷◌, ◌≡◌, ◌≤◌, eqb, false, filter_by, refl, ◌∙◌, if_cases,
  ap, string_eq, option_eq,
}
use web_inspector.Prelude.Dict.{lookup-insert, lookup}
use web_inspector.Contracts.Versions.{Versions}
use web_inspector.Control.UpdateManager.{
  Policy, Rollout, UpdateManager, add_name, add_names, batch_limit, delete_name, pick_rollout_batch,
  state_for, with_state, Outcome, after_outcome, clear_halt, mem_name, record_outcome, rollout_key,
  set_desired,
}

-- Every rollout keeps within the policy.
abbrev pub IsBounded : Policy → Rollout → Type 0
IsBounded p st = length st.in_flight ≤ p.max_in_flight

abbrev pub Inv : UpdateManager → Type 0
Inv u = (key : String) → IsBounded u.policy (state_for u key)

length-add_name :
    (n : Option String) (s : List (Option String)) → length (add_name n s) ≤ length s + 1
unfolding add_name
length-add_name n s = ground (arith, length-append s (n ∷ []))

length-add_names : (ns s : List (Option String)) → length (add_names ns s) ≤ length s + length ns
unfolding add_names
length-add_names [] s = omega arith
length-add_names (n ∷ ns) s = omega (arith, length-add_names ns (add_name n s), length-add_name n s)

length-delete_name :
    (n : Option String) (s : List (Option String)) → length (delete_name n s) ≤ length s
unfolding delete_name
length-delete_name n s = length-filter_by (λ m. not (m == n)) s

pub state_for-with_state :
    (u : UpdateManager) (key : String) (st : Rollout) (other : String)
    → state_for (with_state u key st) other ≡ (if key == other then st else state_for u other)
unfolding state_for
state_for-with_state u key st other = rw (lookup-insert key other st u.rollouts) (ground arith)

with_state-Inv :
    (u : UpdateManager) (key : String) (st : Rollout)
    → Inv u
    → IsBounded u.policy st
    → Inv (with_state u key st)
with_state-Inv u key st inv bounded other =
    ground (arith, state_for-with_state u key st other, inv other)

-- The batch fits into what the policy leaves.
batch-le :
    (u : UpdateManager) (st : Rollout) (names : List (Option String))
    → length (take (batch_limit u.policy st) names) ≤ u.policy.max_in_flight - length st.in_flight
unfolding batch_limit
batch-le u st names = ground (arith, length-take (batch_limit u.policy st) names)

abbrev AfterInv : List (Option String) × UpdateManager → Type 0
AfterInv r = Inv r.1

pick_rollout_batch-Inv :
    (u : UpdateManager) (component version : String) (nodes : List (Option String))
    → Inv u
    → Inv (pick_rollout_batch u component version nodes).1
unfolding pick_rollout_batch
pick_rollout_batch-Inv u component version nodes inv =
    let key = rollout_key component version in
    let st = state_for u key in
    let eligible = filter_by (λ n. not (mem_name n st.in_flight)) nodes in
    let batch = take (batch_limit u.policy st) eligible in
    let kept = with_state-Inv u key st inv (inv key) in
    let grown =
      with_state-Inv u key (record st { in_flight = add_names batch st.in_flight }) inv
        (omega (arith, length-add_names batch st.in_flight, batch-le u st eligible, inv key)) in
    if_cases AfterInv st.failed (λ _. kept)
      (λ _.
        if_cases AfterInv (eqb (u.policy.max_in_flight - length st.in_flight) 0) (λ _. kept)
          (λ _. grown))

after_outcome-IsBounded :
    (p : Policy) (st : Rollout) (name : Option String) (status : Outcome)
    → IsBounded p st
    → IsBounded p (after_outcome st name status)
unfolding after_outcome
after_outcome-IsBounded p st name status h = ground (arith, length-delete_name name st.in_flight)

-- The operations of the update manager.
pub data Call : Type 0 where
  set_desired_call : Versions → Call
  pick_call : (component version : String) → List (Option String) → Call
  outcome_call : (component version : String) → Option String → Outcome → Call
  clear_call : (component version : String) → Call

unfoldable pub call : UpdateManager → Call → UpdateManager
call u (set_desired_call next) = set_desired u next
call u (pick_call component version nodes) = (pick_rollout_batch u component version nodes).1
call u (outcome_call component version name status) = record_outcome u component version name status
call u (clear_call component version) = clear_halt u component version

call-Inv : (u : UpdateManager) (c : Call) → Inv u → Inv (call u c)
unfolding call set_desired record_outcome clear_halt
call-Inv u (set_desired_call next) inv = inv
call-Inv u (pick_call component version nodes) inv =
    pick_rollout_batch-Inv u component version nodes inv
call-Inv u (outcome_call component version name status) inv =
    let key = rollout_key component version in
    with_state-Inv u key (after_outcome (state_for u key) name status) inv
      (after_outcome-IsBounded u.policy (state_for u key) name status (inv key))
call-Inv u (clear_call component version) inv =
    let key = rollout_key component version in
    with_state-Inv u key (record (state_for u key) { failed = false }) inv (inv key)

unfoldable pub calls : UpdateManager → List Call → UpdateManager
calls u [] = u
calls u (c ∷ cs) = calls (call u c) cs

calls-Inv : (u : UpdateManager) (cs : List Call) → Inv u → Inv (calls u cs)
unfolding calls
calls-Inv u [] inv = inv
calls-Inv u (c ∷ cs) inv = calls-Inv (call u c) cs (call-Inv u c inv)

-- A new update manager: no rollout has begun.
abbrev pub start : Versions → Policy → UpdateManager
start desired policy = record { desired = desired; policy = policy; rollouts = [] }

pub policy-calls : (u : UpdateManager) (cs : List Call) → (calls u cs).policy ≡ u.policy
unfolding calls call set_desired record_outcome clear_halt pick_rollout_batch
policy-calls u [] = refl
policy-calls u (c ∷ cs) = policy-calls (call u c) cs ∙ same_policy c
  where
    same_policy : (c : Call) → (call u c).policy ≡ u.policy
    same_policy (set_desired_call next) = refl
    same_policy (pick_call component version nodes) = ground arith
    same_policy (outcome_call component version name status) = refl
    same_policy (clear_call component version) = refl

start-Inv : (desired : Versions) (policy : Policy) → Inv (start desired policy)
unfolding state_for lookup
start-Inv desired policy key = omega arith

-- After any sequence of operations, no rollout has more than `maxInFlight` nodes in flight.
pub calls-in_flight_le :
    (desired : Versions) (policy : Policy) (cs : List Call) (component version : String)
    → length (state_for (calls (start desired policy) cs) (rollout_key component version)).in_flight
      ≤ policy.max_in_flight
calls-in_flight_le desired policy cs component version =
    let u = start desired policy in
    let bound = calls-Inv u cs (start-Inv desired policy) (rollout_key component version) in
    omega (arith, bound, ap (λ (p : Policy). p.max_in_flight) (policy-calls u cs))

-- ===== src/Control/UpdateManager/Halting.antt =====
-- A failed update halts its rollout until the operator clears it, and the first wave is the canary.
use web_inspector.Prelude.Dict.{lookup}
use web_inspector.Contracts.Versions.{Versions}
use web_inspector.Prelude.{
  Bool, List, Option, String, false, true, ◌==◌, ◌≡◌, [], arith, eq_iff, eqb, exists, filter_by,
  if_cases, length, not, take, ◌-◌, ◌∙◌, ◌∷◌, ◌≤◌, ap, length-take, refl, length-append, string_eq,
  option_eq,
}
use web_inspector.Control.UpdateManager.{
  UpdateManager, pick_rollout_batch, rollout_key, state_for, succeeded_outcome, Policy, Rollout,
  add_names, after_outcome, batch_limit, canary, clear_halt, failed_outcome, mem_name,
  record_outcome, set_desired, with_state, add_name,
}
use web_inspector.Control.UpdateManager.Safety.{
  Call, call, clear_call, outcome_call, calls, pick_call, set_desired_call, start,
  state_for-with_state, policy-calls,
}

-- A call that clears the halt of this rollout.
abbrev pub clears : String → Call → Bool
clears key (clear_call component version) = rollout_key component version == key
clears key _ = false

-- A call that records a success in this rollout.
abbrev pub succeeds : String → Call → Bool
succeeds key (outcome_call component version name succeeded_outcome) =
    rollout_key component version == key
succeeds key _ = false

-- The control fields of a rollout: all but the nodes in flight.
abbrev SameControl : UpdateManager → String → List (Option String) × UpdateManager → Type 0
SameControl u key r =
    ((state_for r.1 key).failed ≡ (state_for u key).failed)
    × ((state_for r.1 key).phase ≡ (state_for u key).phase)

pick-SameControl :
    (u : UpdateManager) (component version : String) (nodes : List (Option String)) (key : String)
    → SameControl u key (pick_rollout_batch u component version nodes)
unfolding pick_rollout_batch
pick-SameControl u component version nodes key =
    let own = rollout_key component version in
    let st = state_for u own in
    let eligible = filter_by (λ n. not (mem_name n st.in_flight)) nodes in
    let batch = take (batch_limit u.policy st) eligible in
    let grown : Rollout = record st { in_flight = add_names batch st.in_flight } in
    let kept : SameControl u key ([], with_state u own st) =
      ground (arith, state_for-with_state u own st key, eq_iff own key) in
    if_cases (SameControl u key) st.failed (λ _. kept)
      (λ _.
        if_cases (SameControl u key) (eqb (u.policy.max_in_flight - length st.in_flight) 0)
          (λ _. kept) (λ _. ground (arith, state_for-with_state u own grown key, eq_iff own key)))

call_failed :
    (u : UpdateManager) (c : Call) (key : String)
    → clears key c ≡ false
    → (state_for u key).failed ≡ true
    → (state_for (call u c) key).failed ≡ true
unfolding call record_outcome clear_halt
call_failed u (set_desired_call next) key h f = unfold set_desired state_for in f
call_failed u (pick_call component version nodes) key h f =
    (pick-SameControl u component version nodes key).0 ∙ f
call_failed u (outcome_call component version name status) key h f =
    let own = rollout_key component version in
    unfold after_outcome in
    ground (
      arith,
      eq_iff own key,
      state_for-with_state u own (after_outcome (state_for u own) name status) key,
    )
call_failed u (clear_call component version) key h f =
    let own = rollout_key component version in
    ground (arith, state_for-with_state u own (record (state_for u own) { failed = false }) key)

call_phase :
    (u : UpdateManager) (c : Call) (key : String)
    → succeeds key c ≡ false
    → (state_for u key).phase ≡ canary
    → (state_for (call u c) key).phase ≡ canary
unfolding call record_outcome clear_halt
call_phase u (set_desired_call next) key h f = unfold set_desired state_for in f
call_phase u (pick_call component version nodes) key h f =
    (pick-SameControl u component version nodes key).1 ∙ f
call_phase u (outcome_call component version name status) key h f =
    let own = rollout_key component version in
    unfold after_outcome in
    ground (
      arith,
      eq_iff own key,
      state_for-with_state u own (after_outcome (state_for u own) name status) key,
    )
call_phase u (clear_call component version) key h f =
    let own = rollout_key component version in
    ground (
      arith,
      eq_iff own key,
      state_for-with_state u own (record (state_for u own) { failed = false }) key,
    )

calls_failed :
    (u : UpdateManager) (cs : List Call) (key : String)
    → exists (clears key) cs ≡ false
    → (state_for u key).failed ≡ true
    → (state_for (calls u cs) key).failed ≡ true
unfolding calls
calls_failed u [] key h f = f
calls_failed u (c ∷ cs) key h f =
    calls_failed (call u c) cs key (ground arith) (call_failed u c key (ground arith) f)

calls_phase :
    (u : UpdateManager) (cs : List Call) (key : String)
    → exists (succeeds key) cs ≡ false
    → (state_for u key).phase ≡ canary
    → (state_for (calls u cs) key).phase ≡ canary
unfolding calls
calls_phase u [] key h f = f
calls_phase u (c ∷ cs) key h f =
    calls_phase (call u c) cs key (ground arith) (call_phase u c key (ground arith) f)

outcome_fails :
    (u : UpdateManager) (component version : String) (name : Option String)
    → (state_for
        (record_outcome u component version name failed_outcome)
        (rollout_key component version)).failed
      ≡ true
unfolding record_outcome after_outcome
outcome_fails u component version name =
    let own = rollout_key component version in
    ground (
      arith,
      eq_iff own own,
      state_for-with_state u own (after_outcome (state_for u own) name failed_outcome) own,
    )

pick_halted :
    (u : UpdateManager) (component version : String) (nodes : List (Option String))
    → (state_for u (rollout_key component version)).failed ≡ true
    → (pick_rollout_batch u component version nodes).0 ≡ []
unfolding pick_rollout_batch
pick_halted u component version nodes h = ground arith

-- Once a node has reported a failed update, no sequence of operations lets that rollout pick a
-- node again, unless the operator clears the halt.
pub failure_halts :
    (u : UpdateManager) (component version : String) (name : Option String) (cs : List Call)
    (nodes : List (Option String))
    → exists (clears (rollout_key component version)) cs ≡ false
    → let v = calls (record_outcome u component version name failed_outcome) cs in
      (pick_rollout_batch v component version nodes).0 ≡ []
failure_halts u component version name cs nodes h =
    let after = record_outcome u component version name failed_outcome in
    pick_halted (calls after cs) component version nodes (
      calls_failed after cs (rollout_key component version) h
        (outcome_fails u component version name))

length-pick-canary :
    (u : UpdateManager) (component version : String) (nodes : List (Option String))
    → (state_for u (rollout_key component version)).phase ≡ canary
    → length (pick_rollout_batch u component version nodes).0 ≤ u.policy.canary_size
unfolding pick_rollout_batch
length-pick-canary u component version nodes h =
    let st = state_for u (rollout_key component version) in
    let eligible = filter_by (λ n. not (mem_name n st.in_flight)) nodes in
    ground (arith, length-take (batch_limit u.policy st) eligible)

start_phase :
    (desired : Versions) (policy : Policy) (key : String)
    → (state_for (start desired policy) key).phase ≡ canary
unfolding state_for lookup
start_phase desired policy key = refl

-- Until a node has reported a success, no wave of a rollout is larger than the canary.
pub canary_first :
    (desired : Versions) (policy : Policy) (component version : String) (cs : List Call)
    (nodes : List (Option String))
    → exists (succeeds (rollout_key component version)) cs ≡ false
    → let u = calls (start desired policy) cs in
      length (pick_rollout_batch u component version nodes).0 ≤ policy.canary_size
canary_first desired policy component version cs nodes h =
    let u = start desired policy in
    let key = rollout_key component version in
    let small =
      length-pick-canary (calls u cs) component version nodes
        (calls_phase u cs key h (start_phase desired policy key)) in
    omega (arith, small, ap (λ (p : Policy). p.canary_size) (policy-calls u cs))

-- A call that records any outcome in this rollout.
abbrev pub reports : String → Call → Bool
reports key (outcome_call component version name status) = rollout_key component version == key
reports key _ = false

length-add_name_ge :
    (n : Option String) (s : List (Option String)) → length s ≤ length (add_name n s)
unfolding add_name
length-add_name_ge n s = ground (arith, length-append s (n ∷ []))

length-add_names_ge : (ns s : List (Option String)) → length s ≤ length (add_names ns s)
unfolding add_names
length-add_names_ge [] s = omega arith
length-add_names_ge (n ∷ ns) s =
    omega (arith, length-add_names_ge ns (add_name n s), length-add_name_ge n s)

abbrev IsFull : UpdateManager → String → Type 0
IsFull u key = u.policy.max_in_flight ≤ length (state_for u key).in_flight

abbrev FullAfter : String → List (Option String) × UpdateManager → Type 0
FullAfter key r = IsFull r.1 key

pick-IsFull :
    (u : UpdateManager) (component version : String) (nodes : List (Option String)) (key : String)
    → IsFull u key
    → IsFull (pick_rollout_batch u component version nodes).1 key
unfolding pick_rollout_batch
pick-IsFull u component version nodes key full =
    let own = rollout_key component version in
    let st = state_for u own in
    let eligible = filter_by (λ n. not (mem_name n st.in_flight)) nodes in
    let batch = take (batch_limit u.policy st) eligible in
    let grown : Rollout = record st { in_flight = add_names batch st.in_flight } in
    let kept : FullAfter key ([], with_state u own st) =
      ground (arith, state_for-with_state u own st key, eq_iff own key) in
    if_cases (FullAfter key) st.failed (λ _. kept)
      (λ _.
        if_cases (FullAfter key) (eqb (u.policy.max_in_flight - length st.in_flight) 0) (λ _. kept)
          (λ _. ground (
            arith,
            state_for-with_state u own grown key,
            eq_iff own key,
            length-add_names_ge batch st.in_flight,
          )))

call-IsFull :
    (u : UpdateManager) (c : Call) (key : String)
    → reports key c ≡ false
    → IsFull u key
    → IsFull (call u c) key
unfolding call record_outcome clear_halt
call-IsFull u (set_desired_call next) key h f = unfold set_desired state_for in f
call-IsFull u (pick_call component version nodes) key h f =
    pick-IsFull u component version nodes key f
call-IsFull u (outcome_call component version name status) key h f =
    let own = rollout_key component version in
    ground (
      arith,
      eq_iff own key,
      state_for-with_state u own (after_outcome (state_for u own) name status) key,
    )
call-IsFull u (clear_call component version) key h f =
    let own = rollout_key component version in
    ground (
      arith,
      eq_iff own key,
      state_for-with_state u own (record (state_for u own) { failed = false }) key,
    )

calls-IsFull :
    (u : UpdateManager) (cs : List Call) (key : String)
    → exists (reports key) cs ≡ false
    → IsFull u key
    → IsFull (calls u cs) key
unfolding calls
calls-IsFull u [] key h f = f
calls-IsFull u (c ∷ cs) key h f =
    calls-IsFull (call u c) cs key (ground arith) (call-IsFull u c key (ground arith) f)

-- A rollout whose nodes in flight fill the policy's `maxInFlight` picks no node again, whatever
-- calls follow, as long as no outcome is recorded for it.
pub full_rollout_waits :
    (u : UpdateManager) (component version : String) (cs : List Call) (nodes : List (Option String))
    → u.policy.max_in_flight ≤ length (state_for u (rollout_key component version)).in_flight
    → exists (reports (rollout_key component version)) cs ≡ false
    → (pick_rollout_batch (calls u cs) component version nodes).0 ≡ []
full_rollout_waits u component version cs nodes full silent =
    pick_at_full (calls u cs) component version nodes
      (calls-IsFull u cs (rollout_key component version) silent full)
  where
    pick_at_full :
        (v : UpdateManager) (component version : String) (nodes : List (Option String))
        → IsFull v (rollout_key component version)
        → (pick_rollout_batch v component version nodes).0 ≡ []
    pick_at_full v component version nodes h = unfold pick_rollout_batch in ground arith

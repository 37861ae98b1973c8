-- ===== src/Control/Reconciler.antt =====
-- control-plane/control/reconciler.mjs: one round of the loop that brings the nodes to the desired state.
-- It calls the registry, the update manager, the bundle registry and the dispatcher. `needsConfig`
-- answers false, so that no configuration is ever sent. What is thrown ends the round.
pub mod Single
mod Tests
use web_inspector.Prelude.{
  Bool, List, Option, Result, String, [], false, filter_by, get_or, if◌then◌else◌, map, none, not,
  some, suc, throw, true, truthy, value, ℕ, ◌&&◌, ◌++◌, ◌==◌, ◌∷◌, string_eq,
}
use web_inspector.Contracts.Nodes.{draining}
use web_inspector.Contracts.Versions.{Versions, update_plan, version_of}
use web_inspector.Contracts.Commands.{
  Verb, drain, undrain, update_agent, update_control_plane_agent,
}
use web_inspector.Bundles.Registry.{Bundles, data_ref}
use web_inspector.Control.Registry.{Node, Registry, RegistryError, list_connected}
use web_inspector.Control.UpdateManager.{UpdateManager, pick_rollout_batch}
use web_inspector.Control.Dispatcher.{Dispatcher, has_in_flight_command, send}

-- The parts that a round reads and writes; `issued` counts the commands that were made.
pub record Plane (S : Type 0) : Type 0 where
  pub registry : Registry S
  pub updates : UpdateManager
  pub dispatcher : Dispatcher
  pub issued : ℕ
  pub sent : List (Option String × Verb)

pub data RoundError : Type 0 where
  no_bundle : String → RoundError
  not_sent : RegistryError → RoundError

-- A step, and what it throws
abbrev pub Step : Type 0 → Type 0
Step S = Plane S × Option RoundError

-- `n.status === status` for "draining"
abbrev pub drains : Node → Bool
drains n = elim n.status [ some draining ↦ true | _ ↦ false ]

abbrev pub update_verb : String → Verb
update_verb component =
    if component == "control-plane-agent" then update_control_plane_agent else update_agent

abbrev pub version_field : String → String
version_field component =
    if component == "agent" then "agentVersion" else "controlPlaneAgentVersion"

abbrev pub needs_update : String → Versions → Node → Bool
needs_update component desired n =
    let plan = update_plan n.versions desired in
    if component == "agent" then plan.update_agent else plan.update_supervisor

module _ {S : Type 0} where
  abbrev pub then_do : Step S → (Plane S → Step S) → Step S
  then_do (p, none) f = f p
  then_do (p, some e) f = (p, some e)

  unfoldable pub each : {A : Type 0} → (Plane S → A → Step S) → Plane S → List A → Step S
  each f p [] = (p, none)
  each f p (x ∷ xs) = then_do (f p x) (λ q. each f q xs)

  abbrev pub after_send :
      Plane S → Option String → Verb → Dispatcher × Result RegistryError S → Step S
  after_send p name verb (d, value session) = (
    record p { dispatcher = d; issued = suc p.issued; sent = p.sent ++ ((name, verb) ∷ []) },
    none,
  )
  after_send p name verb (d, throw e) =
      (record p { dispatcher = d; issued = suc p.issued }, some (not_sent e))

  module _ (command_id : ℕ → String) where
    -- `dispatcher.sendCommand(name, verb)`
    unfoldable pub send_command : Plane S → Option String → Verb → Step S
    send_command p name verb =
        after_send p name verb (send p.dispatcher p.registry name (command_id p.issued) verb)

    module _ (bundles : Bundles) where
      -- `makeUpdateCommand`, which throws without the bundle, and `dispatcher.send`
      unfoldable pub update_one : String → String → Plane S → Option String → Step S
      update_one component version p name =
          if has_in_flight_command p.dispatcher name "update"
          then (p, none)
          else elim (data_ref bundles component version) [
            | throw e ↦ (p, some (no_bundle e))
            | value ref ↦ send_command p name (update_verb component)
          ]

      abbrev pub update_batch :
          String → String → Plane S → List (Option String) × UpdateManager → Step S
      update_batch component version p (batch, updates) =
          each (update_one component version) (record p { updates = updates }) batch

      unfoldable pub converge : List Node → String → Plane S → Step S
      converge nodes component p =
          let desired = version_of (version_field component) p.updates.desired in
          let version = get_or desired "" in
          let needing =
            map (λ (n : Node). n.node_name)
              (filter_by (needs_update component p.updates.desired) nodes) in
          if truthy desired
          then update_batch component version p
              (pick_rollout_batch p.updates component version needing)
          else (p, none)

      module _ (wants_drain : Option String → Bool) where
        unfoldable pub drain_one : Plane S → Node → Step S
        drain_one p n =
            if wants_drain n.node_name && not (drains n)
            then send_command p n.node_name drain
            else if not (wants_drain n.node_name) && drains n
            then send_command p n.node_name undrain
            else (p, none)

        unfoldable pub reconcile_once : Plane S → Step S
        reconcile_once p =
            let nodes = list_connected p.registry in
            then_do (converge nodes "control-plane-agent" p)
              (λ q. then_do (converge nodes "agent" q) (λ r. each drain_one r nodes))

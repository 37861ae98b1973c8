-- ===== src/Server/Inbound.antt =====
-- control-plane/server/channel.mjs: `handleInbound`, what a message that comes up a channel does to the
-- parts of the control plane, the dispatches that follow from it, and the attaching and detaching of a
-- WebSocket's session. A reference to an artifact only writes to the store, and is left out with the
-- other messages that change nothing.
pub mod Isolation
mod Tests
use web_inspector.Prelude.{
  Option, Result, String, none, some, throw, value, ℕ, Bool, List, [], false, true, ◌∷◌,
}
use web_inspector.Contracts.Nodes.{NodeStatus, NodeType}
use web_inspector.Contracts.Versions.{Versions}
use web_inspector.Contracts.Commands.{ResultStatus, dispatch_job}
use web_inspector.Control.Registry.{
  Registry, RegistryError, attach_session, detach_session, heartbeat, register, set_status,
}
use web_inspector.Control.Dispatcher.{on_command_result, send}
use web_inspector.Control.Reboot.{Plant, on_reconnect}
use web_inspector.Scheduler.Orchestrator.State.{Orchestrator, Summary, Job}
use web_inspector.Scheduler.Orchestrator.Results.{on_result, settle_dispatch}

-- The `services` that a message reaches
pub record Hub (S : Type 0) : Type 0 where
  pub plant : Plant S
  pub orchestrator : Orchestrator

-- What `handleInbound` reads of a session
pub record Peer : Type 0 where
  pub node_id : String
  pub node_name : String
  pub node_type : NodeType

pub data Inbound : Type 0 where
  hello : Versions → Inbound
  beat : (status : Option NodeStatus) → Versions → Inbound
  status_change : (status : Option NodeStatus) → Inbound
  command_result : (id : String) → ResultStatus → Inbound
  job_result : Summary → Inbound
  no_change : Inbound

-- `registry.setStatus` in a `try`
abbrev pub status_or : {S : Type 0} → Registry S → Result RegistryError (Registry S) → Registry S
status_or r (value changed) = changed
status_or r (throw e) = r

-- At the time `now`. The jobs of the next stage that a result leads to are promises of the orchestrator,
-- which `run_dispatch` runs.
unfoldable pub handle_inbound : {S : Type 0} → Hub S → Peer → ℕ → Inbound → Hub S
handle_inbound hub peer now (hello versions) =
    let p = hub.plant in
    record hub {
      plant = record p {
        registry = register p.registry peer.node_name peer.node_type versions;
        rebooter = (on_reconnect p.rebooter peer.node_name).0;
      };
    }
handle_inbound hub peer now (beat status versions) =
    let p = hub.plant in
    record hub {
      plant = record p {
        registry = heartbeat p.registry now peer.node_name (some peer.node_type) status versions;
      };
    }
handle_inbound hub peer now (status_change none) = hub
handle_inbound hub peer now (status_change (some status)) =
    let p = hub.plant in
    record hub {
      plant = record p {
        registry = status_or p.registry (set_status p.registry peer.node_id status);
      };
    }
handle_inbound hub peer now (command_result id status) =
    let p = hub.plant in
    record hub {
      plant = record p {
        dispatcher = (on_command_result p.dispatcher (some peer.node_name) id status).0;
      };
    }
handle_inbound hub peer now (job_result summary) = record hub {
  orchestrator = on_result hub.orchestrator summary;
}
handle_inbound hub peer now no_change = hub

abbrev pub is_sent : {S : Type 0} → Result RegistryError S → Bool
is_sent (value session) = true
is_sent (throw e) = false

abbrev pub dispatch_job_of : {S : Type 0} → Hub S → String → List Job → Hub S
dispatch_job_of hub command_id [] = hub
dispatch_job_of hub command_id (job ∷ rest) =
    let p = hub.plant in
    let (d, r) = send p.dispatcher p.registry (some job.node_name) command_id dispatch_job in
    record hub {
      plant = record p { dispatcher = d };
      orchestrator = settle_dispatch hub.orchestrator (is_sent r);
    }

-- The oldest promise of `dispatchStage` runs: `sendCommand` to the job's node, and a failed result if it
-- throws. A result that comes up can leave such promises, for any nodes.
unfoldable pub run_dispatch : {S : Type 0} → Hub S → String → Hub S
run_dispatch hub command_id = dispatch_job_of hub command_id hub.orchestrator.dispatching

-- `onConnection`, and the `close` event of its WebSocket
unfoldable pub on_connection : {S : Type 0} → Hub S → Peer → S → Hub S
on_connection hub peer session =
    let p = hub.plant in
    record hub { plant = record p { registry = attach_session p.registry peer.node_id session } }

unfoldable pub on_socket_close : {S : Type 0} → Hub S → Peer → Hub S
on_socket_close hub peer =
    let p = hub.plant in
    record hub { plant = record p { registry = detach_session p.registry peer.node_id } }

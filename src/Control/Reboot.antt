-- ===== src/Control/Reboot.antt =====
-- control-plane/control/reboot-manager.mjs: reboots that wait for their node to come back. `pending`
-- maps a node name to its timer; `timers` are the ones that were set and neither fired nor were
-- cleared, each with the name and the id that its callback closes over. A timer's id is the caller's
-- fresh one. Events are left out.
pub mod Grace
mod Tests
use web_inspector.Prelude.{
  Bool, List, Option, Result, String, eqb, false, filter_by, find, none, not, some, throw, true,
  value, ℕ, ◌==◌, ◌∷◌, string_eq, option_eq,
}
use web_inspector.Prelude.Dict.{Dict, delete, has, insert, lookup, values}
use web_inspector.Contracts.Commands.{reboot}
use web_inspector.Contracts.Nodes.{NodeStatus, offline, rebooting}
use web_inspector.Control.Registry.{Node, Registry, RegistryError, set_status}
use web_inspector.Control.Dispatcher.{Dispatcher, send}

pub record Timer : Type 0 where
  pub timer_id : ℕ
  pub name : String
  pub node_id : Option String

pub record Rebooter : Type 0 where
  pub pending : Dict String ℕ
  pub timers : List Timer

-- What `reboot` works on: the manager, the registry and the dispatcher.
pub record Plant (S : Type 0) : Type 0 where
  pub rebooter : Rebooter
  pub registry : Registry S
  pub dispatcher : Dispatcher

-- `registry.setStatus(nodeId, status)` if there is a node id
unfoldable pub mark : {S : Type 0} → Registry S → Option String → NodeStatus → Registry S
mark r none status = r
mark r (some id) status = elim (set_status r id status) [ value r' ↦ r' | throw _ ↦ r ]

-- `registry.listAll().find((n) => n.nodeName === nodeName)?.nodeId`
unfoldable pub node_id_named : {S : Type 0} → Registry S → String → Option String
node_id_named r name = elim (find (λ (n : Node). n.node_name == some name) (values r.nodes)) [
  | none ↦ none
  | some n ↦ some n.node_id
]

-- The part of `reboot` behind the dispatch, given what that answered.
abbrev pub reboot_with :
    {S : Type 0}
    → Plant S
    → String
    → ℕ
    → Dispatcher × Result RegistryError S
    → Plant S × Result RegistryError (Unit {0})
reboot_with p name timer (d, throw e) = (record p { dispatcher = d }, throw e)
reboot_with p name timer (d, value _) =
    let id = node_id_named p.registry name in
    (
      record p {
        dispatcher = d;
        registry = mark p.registry id rebooting;
        rebooter = record {
          pending = insert name timer p.rebooter.pending;
          timers = record { timer_id = timer; name = name; node_id = id } ∷ p.rebooter.timers;
        };
      },
      value tt,
    )

-- `reboot(nodeName)`, with the ids of its command and of its timer
unfoldable pub reboot_node :
    {S : Type 0} → Plant S → String → String → ℕ → Plant S × Result RegistryError (Unit {0})
reboot_node p name command_id timer =
    reboot_with p name timer (send p.dispatcher p.registry (some name) command_id reboot)

-- `clearTimeout(timer)`
abbrev pub clear_timer : ℕ → List Timer → List Timer
clear_timer t ts = filter_by (λ (u : Timer). not (eqb u.timer_id t)) ts

-- `onReconnect(nodeName)`, given what `pending` holds
abbrev pub reconnect_with : Rebooter → String → Option ℕ → Rebooter × Bool
reconnect_with r name none = (r, false)
reconnect_with r name (some t) =
    (record { pending = delete name r.pending; timers = clear_timer t r.timers }, true)

-- `onReconnect(nodeName)`
unfoldable pub on_reconnect : Rebooter → String → Rebooter × Bool
on_reconnect r name = reconnect_with r name (lookup name r.pending)

-- The callback of a timer that fires
unfoldable pub on_grace_expired : {S : Type 0} → Plant S → Timer → Plant S
on_grace_expired p t = record p {
  registry = mark p.registry t.node_id offline;
  rebooter = record {
    pending = delete t.name p.rebooter.pending;
    timers = clear_timer t.timer_id p.rebooter.timers;
  };
}

-- `isRebooting(nodeName)`
abbrev pub is_rebooting : Rebooter → String → Bool
is_rebooting r name = has name r.pending

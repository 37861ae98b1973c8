-- ===== src/Control/Reboot/Tests.antt =====
-- A reboot, and instances of the theorems on it.
use web_inspector.Prelude.{[], none, refl, value, ℕ, ◌∷◌, ◌≡◌, string_eq}
use web_inspector.Prelude.Dict.{insert, lookup}
use web_inspector.Contracts.Nodes.{azure_direct}
use web_inspector.Control.Registry.{
  Registry, attach_session, ends_with, has_colon, id_of, register, session_for, upsert,
}
use web_inspector.Control.Dispatcher.{send}
use web_inspector.Control.Reboot.{Plant, Rebooter, reboot_node}

abbrev one_node : Plant ℕ
one_node =
    let r : Registry ℕ = record { nodes = []; sessions = [] } in
    record {
      rebooter = record { pending = []; timers = [] };
      registry = register (attach_session r "azure_direct:vm1" 1) "vm1" azure_direct [];
      dispatcher = record { in_flight = [] };
    }

reboots : (reboot_node one_node "vm1" "cmd-1" 1).1 ≡ value tt
unfolding reboot_node send session_for has_colon ends_with id_of attach_session register upsert
    lookup insert
reboots = refl

abbrev waiting : Rebooter
waiting = record {
  pending = ("vm1", 1) ∷ ("vm2", 2) ∷ [];
  timers =
      record { timer_id = 1; name = "vm1"; node_id = none }
      ∷ record { timer_id = 2; name = "vm2"; node_id = none }
      ∷ [];
}

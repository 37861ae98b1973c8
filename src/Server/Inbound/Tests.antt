-- ===== src/Server/Inbound/Tests.antt =====
-- channel.mjs: the messages of one node, beside another.
use web_inspector.Prelude.{List, String, [], arith, eq_iff, refl, some, ℕ, ◌∷◌, ◌≡◌, string_eq}
use web_inspector.Prelude.Dict.{delete, insert, lookup}
use web_inspector.Contracts.Nodes.{azure_direct, draining}
use web_inspector.Control.Registry.{
  attach_session, detach_session, heartbeat, id_of, register, upsert,
}
use web_inspector.Control.Reboot.{on_reconnect}
use web_inspector.Scheduler.Orchestrator.State.{empty, initial_test}
use web_inspector.Control.Dispatcher.{bucket, category_of, note, send}
use web_inspector.Contracts.Commands.{dispatch_job, drain}
use web_inspector.Scheduler.Orchestrator.Results.{settle_dispatch}
use web_inspector.Server.Inbound.{
  Hub, Peer, beat, handle_inbound, hello, on_connection, on_socket_close, run_dispatch,
}
use web_inspector.Server.Inbound.Isolation.{
  Arrival, Untouched, arrive, arrive_all, arrive_all-Untouched, connects, disconnects, sends,
  dispatches,
}

abbrev test_hub : Hub ℕ
test_hub = record {
  plant = record {
    rebooter = record {
      pending = ("vm1", 3) ∷ [];
      timers = record { timer_id = 3; name = "vm1"; node_id = some "azure_direct:vm1" } ∷ [];
    };
    registry = record { nodes = []; sessions = ("azure_direct:vm2", 8) ∷ [] };
    dispatcher = record { in_flight = [] };
  };
  orchestrator = empty;
}

abbrev vm1_peer : Peer
vm1_peer = record { node_id = "azure_direct:vm1"; node_name = "vm1"; node_type = azure_direct }

abbrev test_arrivals : List (Arrival ℕ)
test_arrivals =
    connects 7 ∷ sends 10 (hello []) ∷ sends 20 (beat (some draining) []) ∷ disconnects ∷ []

test_comes_back :
    (arrive_all test_hub vm1_peer (connects 7 ∷ sends 10 (hello []) ∷ [])).plant.rebooter.pending
    ≡ []
unfolding arrive_all arrive on_connection handle_inbound on_reconnect lookup delete
test_comes_back = refl

test_other_session :
    lookup "azure_direct:vm2" (arrive_all test_hub vm1_peer test_arrivals).plant.registry.sessions
    ≡ some 8
unfolding arrive_all arrive on_connection on_socket_close handle_inbound attach_session
    detach_session register heartbeat upsert lookup insert delete
test_other_session = refl

-- A stage whose job for vm2 is yet to be sent, beside a command that is in flight to vm2
abbrev busy_hub : Hub ℕ
busy_hub = record test_hub {
  plant = record (test_hub.plant) {
    dispatcher = record {
      in_flight =
          (some "vm2", ("c9", record { verb = drain; category = category_of drain }) ∷ []) ∷ [];
    };
  };
  orchestrator = record empty {
    dispatching =
        record {
          id = "u1::vm2::quick";
          url_id = "u1";
          node_name = "vm2";
          node_type = some azure_direct;
          stage = initial_test;
        }
        ∷ [];
  };
}

test_dispatched :
    lookup "c1" (bucket (run_dispatch busy_hub "c1").plant.dispatcher (some "vm2"))
    ≡ some (record { verb = dispatch_job; category = category_of dispatch_job })
unfolding run_dispatch send note lookup insert settle_dispatch
test_dispatched = refl

arrive_all-Untouched_example :
    Untouched "azure_direct:vm2" "vm2" "c9" busy_hub
      (arrive_all busy_hub vm1_peer (dispatches "c1" ∷ test_arrivals))
unfolding id_of
arrive_all-Untouched_example =
    arrive_all-Untouched "azure_direct:vm2" "vm2" "c9" vm1_peer refl
      (λ e. ground (arith, eq_iff {A = String} "azure_direct:vm1" "azure_direct:vm2", e))
      (λ e. ground (arith, eq_iff {A = String} "vm1" "vm2", e)) busy_hub
      (dispatches "c1" ∷ test_arrivals)
      (λ e. ground (arith, eq_iff {A = String} "c1" "c9", e), (tt, (tt, (tt, (tt, tt)))))

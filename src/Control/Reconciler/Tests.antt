-- ===== src/Control/Reconciler/Tests.antt =====
-- reconciler.mjs: a round over one node.
use web_inspector.Contracts.Versions.{
  compare_from, compare_segments, compare_versions, is_behind, segment, segments, update_plan,
  version_of,
}
use web_inspector.Prelude.{
  String, [], arith, eqb, false, if◌then◌else◌, none, refl, some, ℕ, ◌∷◌, ◌≡◌, string_eq,
}
use web_inspector.Prelude.Dict.{lookup, insert}
use web_inspector.Contracts.Nodes.{azure_direct, ready}
use web_inspector.Contracts.Commands.{update_control_plane_agent}
use web_inspector.Bundles.Registry.{Bundles, Published, bundle_record, data_ref, get, make_data_ref}
use web_inspector.Control.Registry.{Node, ends_with, has_colon, id_of, list_connected, session_for}
use web_inspector.Control.UpdateManager.{
  state_for, add_name, add_names, batch_limit, mem_name, pick_rollout_batch, rollout_key,
}
use web_inspector.Control.Dispatcher.{bucket, has_in_flight_command, note, send}
use web_inspector.Control.Reconciler.{
  Plane, Step, reconcile_once, converge, drain_one, each, send_command, update_one,
}
use web_inspector.Control.Reconciler.Single.{IsSingle, StaysSingle, reconcile_once-StaysSingle}

abbrev bundle_of : String → Published
bundle_of component = record {
  component = component;
  version = "2.0.0";
  sha256 = "ab12";
  size_bytes = 12;
  signature = none;
  release_notes = "";
}

abbrev test_bundles : Bundles
test_bundles =
    ("agent@2.0.0", bundle_record (bundle_of "agent"))
    ∷ ("control-plane-agent@2.0.0", bundle_record (bundle_of "control-plane-agent"))
    ∷ []

abbrev old_node : Node
old_node = record {
  node_id = "azure_direct:n1";
  node_name = some "n1";
  node_type = some azure_direct;
  versions = ("controlPlaneAgentVersion", some "1.0.0") ∷ ("agentVersion", some "1.0.0") ∷ [];
  status = some ready;
  last_heartbeat_at = none;
}

abbrev test_plane : Plane ℕ
test_plane = record {
  registry = record {
    nodes = ("azure_direct:n1", old_node) ∷ [];
    sessions = ("azure_direct:n1", 7) ∷ [];
  };
  updates = record {
    desired = ("controlPlaneAgentVersion", some "2.0.0") ∷ ("agentVersion", some "2.0.0") ∷ [];
    policy = record { canary_size = 1; batch_size = 5; max_in_flight = 5 };
    rollouts = [];
  };
  dispatcher = record { in_flight = [] };
  issued = 0;
  sent = [];
}

abbrev test_round : Step ℕ
test_round =
    reconcile_once (λ n. if eqb n 0 then "c0" else "c1") test_bundles (λ name. false) test_plane

test_sent : (test_round.0).sent ≡ (some "n1", update_control_plane_agent) ∷ []
unfolding reconcile_once converge version_of each pick_rollout_batch list_connected update_plan
    is_behind compare_versions compare_segments segments compare_from segment update_one
    has_in_flight_command data_ref make_data_ref get send_command send bucket note drain_one
    ends_with has_colon id_of session_for add_name add_names batch_limit mem_name rollout_key
    state_for insert lookup
test_sent = refl

-- The worker's rollout counts the node as being updated, though no update of the worker was sent to it.
test_skipped : (state_for (test_round.0).updates "agent@2.0.0").in_flight ≡ some "n1" ∷ []
unfolding reconcile_once converge version_of each pick_rollout_batch list_connected update_plan
    is_behind compare_versions compare_segments segments compare_from segment update_one
    has_in_flight_command data_ref make_data_ref get send_command send bucket note drain_one
    ends_with has_colon id_of session_for add_name add_names batch_limit mem_name rollout_key
    state_for insert lookup
test_skipped = refl

test_plane-IsSingle : IsSingle test_plane.dispatcher
unfolding bucket lookup
test_plane-IsSingle name = ground arith

reconcile_once-StaysSingle_example : StaysSingle test_round
reconcile_once-StaysSingle_example =
    reconcile_once-StaysSingle (λ n. if eqb n 0 then "c0" else "c1") test_bundles (λ name. false)
      test_plane test_plane-IsSingle

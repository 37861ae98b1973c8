-- ===== src/Scheduler/Selection/Tests.antt =====
-- A selection, and instances of its theorems.
use web_inspector.Prelude.{
  All, List, [], false, none, refl, some, true, ℕ, ◌↔◌, ◌∷◌, ◌≡◌, string_eq,
}
use web_inspector.Prelude.Dict.{insert, lookup, values}
use web_inspector.Contracts.Nodes.{NodeType, azure_direct, gsa_client, ready}
use web_inspector.Contracts.Versions.{
  Versions, compare_from, compare_segments, compare_versions, meets_minimums, segment, segments,
  version_of,
}
use web_inspector.Control.Registry.{
  Registry, attach_session, id_of, list_connected, register, upsert, Node,
}
use web_inspector.Scheduler.Selection.{
  TypePolicy, can_dispatch, eligible, pick_minimums, picked, select_for_url, has_type,
}
use web_inspector.Scheduler.Selection.Quorum.{IsMet, can_dispatch-IsMet}
use web_inspector.Scheduler.Selection.Filters.{Occurs}
use web_inspector.Scheduler.Selection.Fitness.{IsFit, selected-IsFit, IsAsked}

abbrev two_connected : Registry ℕ
two_connected =
    let r : Registry ℕ = record { nodes = []; sessions = [] } in
    let r1 = attach_session r "azure_direct:vm1" 1 in
    let r2 = register r1 "vm1" azure_direct (("agentVersion", some "3.1.0") ∷ []) in
    let r3 = attach_session r2 "gsa_client:vm2" 2 in
    register r3 "vm2" gsa_client (("agentVersion", some "2.9.0") ∷ [])

abbrev wanted : Versions
wanted = ("agentVersion", some "3.0.0") ∷ []

abbrev both_types : List (NodeType × TypePolicy)
both_types =
    (azure_direct, record { quorum_field = none; takes_all = true; is_required = true })
    ∷ (gsa_client, record { quorum_field = some 1; takes_all = false; is_required = true })
    ∷ []

old_agent_blocks : can_dispatch (select_for_url two_connected wanted both_types) ≡ false
unfolding select_for_url picked eligible list_connected pick_minimums meets_minimums
    compare_versions compare_segments compare_from segments segment version_of attach_session
    register upsert id_of lookup insert
old_agent_blocks = refl

can_dispatch-IsMet_example :
    (can_dispatch (select_for_url two_connected wanted both_types) ≡ true)
    ↔ All (IsMet two_connected wanted) both_types
can_dispatch-IsMet_example = can_dispatch-IsMet two_connected wanted both_types

-- The node of the registry that has the version that is wanted
abbrev vm1 : Node
vm1 = record {
  node_id = "azure_direct:vm1";
  node_name = some "vm1";
  node_type = some azure_direct;
  versions = ("agentVersion", some "3.1.0") ∷ [];
  status = some ready;
  last_heartbeat_at = none;
}

selected-IsFit_example :
    All
      (λ m. IsFit two_connected wanted m × IsAsked both_types m)
      (select_for_url two_connected wanted both_types).selected
    × (Occurs vm1 (eligible two_connected wanted azure_direct) ↔ (
        Occurs vm1 (values two_connected.nodes)
        × (has_type azure_direct vm1 ≡ true)
        × IsFit two_connected wanted vm1))
selected-IsFit_example = selected-IsFit two_connected wanted both_types azure_direct vm1

vm1_is_eligible : eligible two_connected wanted azure_direct ≡ vm1 ∷ []
unfolding eligible list_connected pick_minimums meets_minimums compare_versions compare_segments
    compare_from segments segment version_of attach_session register upsert id_of lookup insert
vm1_is_eligible = refl

-- ===== src/Reporting/Views/Inventory.antt =====
-- final-report.mjs: the inventory of the nodes of a run.
use web_inspector.Prelude.{
  List, Option, String, [], eqb, if◌then◌else◌, length, map, none, or_text, some, text_or, ◌∷◌,
  string_eq,
}
use web_inspector.Prelude.Dict.{Dict, has, insert, lookup, merge, values}
use web_inspector.Reporting.Views.{Chosen, KnownNode, Model, View}

pub record Entry : Type 0 where
  pub node_name : String
  pub node_type : String
  pub status : String
  pub public_ip : String
  pub version : String

-- The entry of a selected node, with what the registry knew of it.
unfoldable pub selected_entry : Chosen → Option KnownNode → Entry
selected_entry s none = record {
  node_name = s.node_name;
  node_type = text_or s.node_type "";
  status = "";
  public_ip = text_or s.public_ip "";
  version = "";
}
selected_entry s (some n) = record {
  node_name = s.node_name;
  node_type = text_or (or_text s.node_type n.node_type) "";
  status = text_or n.status "";
  public_ip = text_or (or_text n.public_ip (or_text n.public_ip_old s.public_ip)) "";
  version = text_or (or_text n.agent_version n.worker_version) "";
}

abbrev pub registry_entry : KnownNode → Entry
registry_entry n = record {
  node_name = n.node_name;
  node_type = text_or n.node_type "";
  status = text_or n.status "";
  public_ip = text_or (or_text n.public_ip n.public_ip_old) "";
  version = text_or n.agent_version "";
}

unfoldable pub add_selected :
    Dict String KnownNode → Dict String Entry → List Chosen → Dict String Entry
add_selected registry inv [] = inv
add_selected registry inv (s ∷ rest) =
    let entry = selected_entry s (lookup s.node_name registry) in
    add_selected registry (if has s.node_name inv then inv else insert s.node_name entry inv) rest

unfoldable pub add_views : Dict String KnownNode → Dict String Entry → List View → Dict String Entry
add_views registry inv [] = inv
add_views registry inv (v ∷ vs) =
    add_views registry (add_selected registry inv v.url.selected_nodes) vs

-- `buildNodeInventory(model, views)`
unfoldable pub build_node_inventory : Model → List View → List Entry
build_node_inventory model views =
    let registry = merge [] (map (λ (n : KnownNode). (n.node_name, n)) model.nodes) in
    let inv = add_views registry [] views in
    let all = merge [] (map (λ (n : KnownNode). (n.node_name, registry_entry n)) model.nodes) in
    values (if eqb (length inv) 0 then all else inv)

-- ===== src/Scheduler/Selection.antt =====
-- control-plane/scheduler/node-selection.mjs: which nodes test a URL. A policy is the list of its
-- entries; `minimums` are the four fields that `pickMinimums` keeps of the desired versions, in its
-- order. Of a selected node the source copies the name, the type and the versions.
pub mod Quorum
pub mod Fitness
pub mod Filters
mod Tests
use web_inspector.Prelude.{
  Bool, List, Option, [], eqb, false, filter_by, get_or, if◌then◌else◌, length, ltb, map, max, none,
  not, some, take, true, ℕ, ◌&&◌, ◌++◌, ◌==◌, ◌∷◌, string_eq,
}
use web_inspector.Contracts.Nodes.{
  NodeStatus, NodeType, blocked, disconnected, draining, heartbeat_missing, offline, rebooting,
  type_text, updating, version_mismatch,
}
use web_inspector.Contracts.Versions.{Versions, meets_minimums, version_of}
use web_inspector.Control.Registry.{Node, Registry, list_connected}

pub record TypePolicy : Type 0 where
  pub quorum_field : Option ℕ
  pub takes_all : Bool
  pub is_required : Bool

pub record Unmet : Type 0 where
  pub node_type : NodeType
  pub need : ℕ
  pub got : ℕ

pub record Choice : Type 0 where
  pub selected : List Node
  pub unmet : List Unmet

-- `UNAVAILABLE_STATUSES.has(status)`
abbrev pub is_unavailable : Option NodeStatus → Bool
is_unavailable (some draining) = true
is_unavailable (some updating) = true
is_unavailable (some rebooting) = true
is_unavailable (some offline) = true
is_unavailable (some disconnected) = true
is_unavailable (some heartbeat_missing) = true
is_unavailable (some version_mismatch) = true
is_unavailable (some blocked) = true
is_unavailable _ = false

-- `n.nodeType === nodeType`
abbrev pub has_type : NodeType → Node → Bool
has_type type n = elim n.node_type [ none ↦ false | some t ↦ type_text t == type_text type ]

-- `pickMinimums(desired)`
unfoldable pub pick_minimums : Versions → Versions
pick_minimums desired =
    map (λ f. (f, version_of f desired))
      ("agentVersion" ∷ "contractsVersion" ∷ "protocolVersion" ∷ "schemaVersion" ∷ [])

-- `policy.quorum ?? 1`
abbrev pub quorum_of : TypePolicy → ℕ
quorum_of p = get_or p.quorum_field 1

-- `picked` of one entry of the policy
unfoldable pub picked : TypePolicy → List Node → List Node
picked p pool =
    let quorum = quorum_of p in
    take (max quorum (if not (eqb (length pool) 0) && p.takes_all then length pool else quorum))
      pool

module _ {S : Type 0} where
  -- `eligible(nodeType)`
  unfoldable pub eligible : Registry S → Versions → NodeType → List Node
  eligible r desired type =
      filter_by (λ n. meets_minimums n.versions (pick_minimums desired))
        (filter_by (λ n. not (is_unavailable n.status))
          (filter_by (has_type type) (list_connected r)))

  -- `selectForUrl()`; `canDispatch` is `can_dispatch` of its answer.
  unfoldable pub select_for_url : Registry S → Versions → List (NodeType × TypePolicy) → Choice
  select_for_url r desired [] = record { selected = []; unmet = [] }
  select_for_url r desired ((type, p) ∷ rest) =
      let pool = eligible r desired type in
      let chosen = picked p pool in
      let more = select_for_url r desired rest in
      let missing : Unmet = record { node_type = type; need = quorum_of p; got = length chosen } in
      record {
        selected = chosen ++ more.selected;
        unmet =
            if p.is_required && ltb (length chosen) (quorum_of p)
            then missing ∷ more.unmet
            else more.unmet;
      }

-- `unmet.length === 0`
abbrev pub can_dispatch : Choice → Bool
can_dispatch c = eqb (length c.unmet) 0

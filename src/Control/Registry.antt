-- ===== src/Control/Registry.antt =====
-- control-plane/control/registry.mjs: the nodes that the ControlPlane knows, and their sessions.
-- `S` is the type of a transport session. A field of a record may be `undefined`, which is `none`
-- here. Metadata, capabilities and the times of changes are left out.
use Prim.Native.String.{◌++◌ as ◌++ₛ◌, ◌∷◌ as ◌∷ₛ◌}
use Prim.Native.Char.{code}
use web_inspector.Prelude.{
  Bool, List, Option, String, [], false, filter_by, get_or, if◌then◌else◌, ltb, none, some, true, ℕ,
  ◌&&◌, ◌-◌, ◌∷◌, Result, throw, value, eqb, find, ◌==◌, ◌||◌, string_eq,
}
use web_inspector.Prelude.Dict.{Dict, delete, has, insert, lookup, merge, values}
use web_inspector.Contracts.Nodes.{
  NodeStatus, NodeType, connected, disconnected, heartbeat_missing, is_node_status, ready,
  type_text, unregistered,
}
use web_inspector.Contracts.Versions.{Versions}

pub record Node : Type 0 where
  pub node_id : String
  pub node_name : Option String
  pub node_type : Option NodeType
  pub versions : Versions
  pub status : Option NodeStatus
  pub last_heartbeat_at : Option ℕ

pub record Registry (S : Type 0) : Type 0 where
  pub nodes : Dict String Node
  pub sessions : Dict String S

-- `idOf(nodeName, nodeType)`
unfoldable pub id_of : String → Option NodeType → String
id_of name type =
    get_or (elim type [ none ↦ none | some t ↦ some (type_text t) ]) "undefined" ++ₛ (":" ++ₛ name)

abbrev pub new_node : String → Node
new_node id = record {
  node_id = id;
  node_name = none;
  node_type = none;
  versions = [];
  status = some unregistered;
  last_heartbeat_at = none;
}

-- The status that a heartbeat leaves: the payload's, if it is one of the known ones.
abbrev pub beat_status : Option NodeStatus → Option NodeStatus → Option NodeStatus
beat_status none prior = prior
beat_status (some status) prior = if is_node_status status then some status else prior

-- The test of `sweepStaleHeartbeats` for one node.
abbrev pub is_stale : ℕ → ℕ → Node → Bool
is_stale stale_after now n =
    elim n.last_heartbeat_at [ none ↦ false | some t ↦ ltb stale_after (now - t) ]
    && elim n.status [ some ready ↦ true | _ ↦ false ]

pub data RegistryError : Type 0 where
  invalid_status no_live_session no_node_name : RegistryError

-- `s.includes(":")`
unfoldable pub has_colon : String → Bool
has_colon String.[] = false
has_colon (String.◌∷◌ c s) = eqb (code c) 58 || has_colon s

-- `s.endsWith(end)`
unfoldable pub ends_with : String → String → Bool
ends_with String.[] end = "" == end
ends_with (String.◌∷◌ c s) end = c ∷ₛ s == end || ends_with s end

module _ {S : Type 0} where
  -- `upsert(nodeId, patch)`
  unfoldable pub upsert : Registry S → String → (Node → Node) → Registry S
  upsert r id patch = record r {
    nodes = insert id (patch (get_or (lookup id r.nodes) (new_node id))) r.nodes;
  }

  unfoldable pub attach_session : Registry S → String → S → Registry S
  attach_session r id session =
      upsert (record r { sessions = insert id session r.sessions }) id
        (λ n. record n { status = some connected })

  unfoldable pub detach_session : Registry S → String → Registry S
  detach_session r id =
      upsert (record r { sessions = delete id r.sessions }) id
        (λ n. record n { status = some disconnected })

  -- The session that `send(nodeName, envelope, nodeType)` sends on.
  unfoldable pub session_for : Registry S → Option String → Option NodeType → Result RegistryError S
  session_for r none type = throw no_node_name
  session_for r (some name) type =
      let known : Option NodeType = elim (lookup name r.nodes) [
        | none ↦ none
        | some n ↦ n.node_type
      ] in
      let id =
        if has_colon name
        then name
        else id_of name (elim type [ none ↦ known | some t ↦ some t ]) in
      let by_name = find (λ e. ends_with e.0 (":" ++ₛ name)) r.sessions in
      elim (lookup id r.sessions) [
        | some session ↦ value session
        | none ↦ elim by_name [ some e ↦ value e.1 | none ↦ throw no_live_session ]
      ]

  -- `register(hello)`
  unfoldable pub register : Registry S → String → NodeType → Versions → Registry S
  register r name type versions = upsert r (id_of name (some type)) (λ n. record n {
    node_name = some name;
    node_type = some type;
    versions = versions;
    status = some ready;
  })

  -- `heartbeat(nodeName, payload)` at the time `now`
  unfoldable pub heartbeat :
      Registry S → ℕ → String → Option NodeType → Option NodeStatus → Versions → Registry S
  heartbeat r now name type status versions =
      let id = id_of name type in
      let prior : Option NodeStatus = elim (lookup id r.nodes) [
        | none ↦ none
        | some n ↦ n.status
      ] in
      upsert r id (λ n. record n {
        last_heartbeat_at = some now;
        status = beat_status status prior;
        versions = merge n.versions versions;
      })

  unfoldable pub set_status : Registry S → String → NodeStatus → Result RegistryError (Registry S)
  set_status r id status =
      if is_node_status status
      then value (upsert r id (λ n. record n { status = some status }))
      else throw invalid_status

  -- `listConnected()`
  unfoldable pub list_connected : Registry S → List Node
  list_connected r = filter_by (λ n. has n.node_id r.sessions) (values r.nodes)

  -- `sweepStaleHeartbeats(now)`; a heartbeat is never later than `now`.
  unfoldable pub sweep_stale_heartbeats : Registry S → ℕ → ℕ → Registry S
  sweep_stale_heartbeats r stale_after now = sweep_nodes (values r.nodes) r
    where
      sweep_nodes : List Node → Registry S → Registry S
      sweep_nodes [] r = r
      sweep_nodes (n ∷ ns) r =
          let swept = upsert r n.node_id (λ m. record m { status = some heartbeat_missing }) in
          sweep_nodes ns (if is_stale stale_after now n then swept else r)

-- ===== src/Contracts/Nodes.antt =====
-- shared/contracts/nodes.mjs: node types and statuses. A status is one of `NODE_STATUSES`, or some
-- other text that a message carried; a node type likewise. `normalizeUrl` is a parameter where it
-- is used: it stands on the `URL` parser of the platform.
use web_inspector.Prelude.{Bool, String, false, true}

pub data NodeType : Type 0 where
  azure_direct gsa_remotenet gsa_client cloudflare_client external_direct : NodeType
  other_type : String → NodeType

abbrev pub is_node_type : NodeType → Bool
is_node_type (other_type s) = false
is_node_type _ = true

-- The text of a node type.
abbrev pub type_text : NodeType → String
type_text azure_direct = "azure_direct"
type_text gsa_remotenet = "gsa_remotenet"
type_text gsa_client = "gsa_client"
type_text cloudflare_client = "cloudflare_client"
type_text external_direct = "external_direct"
type_text (other_type s) = s

-- `REQUIRED_NODE_TYPES.includes(value)`
abbrev pub is_required_node_type : NodeType → Bool
is_required_node_type azure_direct = true
is_required_node_type gsa_remotenet = true
is_required_node_type gsa_client = true
is_required_node_type _ = false

pub data NodeStatus : Type 0 where
  unregistered connected ready busy draining degraded heartbeat_missing : NodeStatus
  disconnected updating update_failed rebooting offline version_mismatch blocked : NodeStatus
  other_status : String → NodeStatus

-- `NODE_STATUSES.includes(status)`
abbrev pub is_node_status : NodeStatus → Bool
is_node_status (other_status s) = false
is_node_status _ = true

abbrev pub is_ready : NodeStatus → Bool
is_ready ready = true
is_ready _ = false

abbrev pub is_draining : NodeStatus → Bool
is_draining draining = true
is_draining _ = false

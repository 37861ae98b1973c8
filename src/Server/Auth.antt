-- ===== src/Server/Auth.antt =====
-- control-plane/server/auth.mjs: who may call. A request is the headers and the certificate that the
-- checks read; a header holds no end of a line. Comparing in constant time is comparing.
pub mod Revoked
mod Tests
use web_inspector.Prelude.{
  Bool, List, Option, String, [], exists, false, get_or, if◌then◌else◌, none, not, some, true,
  truthy, ◌&&◌, ◌==◌, ◌||◌, ◌∷◌, string_eq,
}
use web_inspector.Prelude.Text.{drop_chars, is_space, starts_with_ci, trim}
use web_inspector.Control.Enrollment.{Enrollment, Platform, verify_client_cert, verify_credential}

pub record AuthRequest : Type 0 where
  pub node_id : Option String
  pub authorization : Option String
  pub peer_fingerprint : Option String

pub data Method : Type 0 where
  mtls bearer : Method

pub data NodeAuth : Type 0 where
  granted : (node_id : String) → Method → NodeAuth
  refused : (reason : String) → NodeAuth

abbrev pub starts_with_space : String → Bool
starts_with_space String.[] = false
starts_with_space (String.◌∷◌ c s) = is_space c

-- What `/^Bearer\s+(.+)$/i` finds in a header, trimmed: white space, and something behind it.
unfoldable pub bearer_token : Option String → Option String
unfolding starts_with_ci drop_chars trim is_space
bearer_token header =
    let text = get_or header "" in
    let rest = drop_chars 6 text in
    if starts_with_ci text "Bearer" && starts_with_space rest && not (drop_chars 1 rest == "")
    then some (trim rest)
    else none

abbrev pub by_credential : Platform → Enrollment → String → Bool → Option String → NodeAuth
by_credential p s node_id has_cert none =
    refused (if has_cert then "client certificate not recognized" else "missing bearer credential")
by_credential p s node_id has_cert (some credential) =
    if not (verify_credential p s node_id credential)
    then refused "unknown or revoked node credential"
    else granted node_id bearer

-- `peerCertFingerprint(req)`: an empty one is none.
abbrev pub peer_cert_fingerprint : AuthRequest → Option String
peer_cert_fingerprint req = if truthy req.peer_fingerprint then req.peer_fingerprint else none

abbrev pub by_certificate :
    Platform → Enrollment → String → Option String → Option String → NodeAuth
by_certificate p s node_id header none = by_credential p s node_id false (bearer_token header)
by_certificate p s node_id header (some fingerprint) =
    if verify_client_cert p s node_id fingerprint
    then granted node_id mtls
    else by_credential p s node_id true (bearer_token header)

abbrev pub auth_with : Platform → Enrollment → AuthRequest → Option String → NodeAuth
auth_with p s req none = refused "missing x-node-id"
auth_with p s req (some node_id) =
    if node_id == ""
    then refused "missing x-node-id"
    else by_certificate p s node_id req.authorization (peer_cert_fingerprint req)

unfoldable pub verify_node_auth : Platform → Enrollment → AuthRequest → NodeAuth
verify_node_auth p s req = auth_with p s req req.node_id

pub data OperatorAuth : Type 0 where
  operator : OperatorAuth
  not_operator : (reason : String) → OperatorAuth

-- `normalizeTokens(tokens)` of an array, with the tokens that are there already
unfoldable pub new_tokens : List String → List String → List String
unfolding trim
new_tokens seen [] = []
new_tokens seen (t ∷ ts) =
    let text = trim t in
    let without = new_tokens seen ts in
    let with_it = text ∷ new_tokens (text ∷ seen) ts in
    if text == "" || exists (λ other. other == text) seen then without else with_it

abbrev pub normalize_tokens : List String → List String
normalize_tokens tokens = new_tokens [] tokens

abbrev pub or_generated : List String → String → List String
or_generated [] generated = generated ∷ []
or_generated (t ∷ ts) generated = t ∷ ts

abbrev pub operator_with : List String → Option String → OperatorAuth
operator_with allow none = not_operator "missing operator credential"
operator_with allow (some token) =
    if token == ""
    then not_operator "missing operator credential"
    else if exists (λ t. t == token) allow
    then operator
    else not_operator "invalid operator credential"

-- `createOperatorAuth({ tokens }).verify(req)`, with the token that it generates if there are none
unfoldable pub verify_operator : List String → String → AuthRequest → OperatorAuth
verify_operator tokens generated req =
    operator_with (or_generated (normalize_tokens tokens) generated)
      (bearer_token req.authorization)

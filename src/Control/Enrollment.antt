-- ===== src/Control/Enrollment.antt =====
-- control-plane/control/enrollment.mjs: enrollment tokens and node credentials. `stored_tokens` and
-- `stored_credentials` are the tables of the durable store that every change is written through to
-- (a write that the store loses is not modelled). The digest, the fingerprint of a certificate and
-- the decoding of a hex digest are the platform's: parameters. The random texts and the clock are
-- arguments.
pub mod Grants
pub mod Admission
pub mod Tokens
pub mod Credentials
pub mod Restart
mod Tests
use Prim.Native.String.{◌++◌ as ◌++ₛ◌, ◌∷◌ as ◌∷ₛ◌}
use Prim.Native.Char.{code}
use web_inspector.Prelude.{
  Bool, List, Option, Result, String, [], eqb, false, get_or, if◌then◌else◌, ltb, none, not, some,
  throw, throw_if, true, truthy, value, ℕ, ◌&&◌, ◌+◌, ◌==◌, ◌||◌, ◌∷◌, string_eq, ◌>>=◌, ◌>>◌,
}
use web_inspector.Prelude.Dict.{Dict, delete, has, insert, lookup, merge}
use web_inspector.Prelude.Text.{trim}
use web_inspector.Contracts.Nodes.{NodeType, is_node_type, type_text}

pub record Token : Type 0 where
  pub node_type : Option NodeType  -- `null` is any type
  pub expires_at : ℕ
  pub one_time_use : Bool
  pub used : Bool

pub record Credential : Type 0 where
  pub node_id : String
  pub node_name : String
  pub node_type : NodeType
  pub credential_hash : String
  pub cert_fingerprint : Option String
  pub revoked : Bool

pub record Enrollment : Type 0 where
  pub tokens : Dict String Token
  pub credentials : Dict String Credential
  pub stored_tokens : Dict String Token
  pub stored_credentials : Dict String Credential

pub data EnrollError : Type 0 where
  unknown_token token_expired token_used bad_name bad_type wrong_scope bad_certificate : EnrollError

-- The platform: `sha256Hex`, `new X509Certificate(pem).fingerprint256`, and the bytes of a hex text.
pub record Platform : Type 0 where
  pub sha256_hex : String → String
  pub fingerprint_of : String → Option String
  pub hex_bytes : String → String

-- `tokens.set` or `tokens.delete`, with the write-through.
abbrev pub put_token : Enrollment → String → Token → Enrollment
put_token s hash t = record s {
  tokens = insert hash t s.tokens;
  stored_tokens = insert hash t s.stored_tokens;
}

abbrev pub drop_token : Enrollment → String → Enrollment
drop_token s hash = record s {
  tokens = delete hash s.tokens;
  stored_tokens = delete hash s.stored_tokens;
}

abbrev pub put_credential : Enrollment → String → Credential → Enrollment
put_credential s id c = record s {
  credentials = insert id c s.credentials;
  stored_credentials = insert id c s.stored_credentials;
}

-- `rec.expiresAt && now > rec.expiresAt`
abbrev pub is_stale : ℕ → Token → Bool
is_stale now t = not (eqb t.expires_at 0) && ltb t.expires_at now

-- The loop of `sweepExpired`, over the entries that the map had.
unfoldable pub sweep_entries : ℕ → List (String × Token) → Enrollment → Enrollment
sweep_entries now [] s = s
sweep_entries now ((hash, t) ∷ rest) s =
    sweep_entries now rest (if is_stale now t then drop_token s hash else s)

unfoldable pub sweep_expired : Enrollment → ℕ → Enrollment
unfolding sweep_entries
sweep_expired s now = sweep_entries now s.tokens s

-- `issueToken(…)`: the state; the raw token is the caller's random text.
unfoldable pub issue_token :
    Platform
    → Enrollment
    → ℕ
    → String
    → Option NodeType
    → (ttl : ℕ) → (one_time : Bool) → Enrollment
unfolding sweep_expired
issue_token p s now token node_type ttl one_time =
    put_token (sweep_expired s now) (p.sha256_hex token) (record {
      node_type = node_type;
      expires_at = now + ttl;
      one_time_use = one_time;
      used = false;
    })

-- `assertNodeIdentity(identity)`
unfoldable pub assert_node_identity :
    Option String → NodeType → Result EnrollError (String × NodeType)
assert_node_identity name node_type =
    let trimmed = trim (get_or name "") in
    if trimmed == ""
    then throw bad_name
    else if is_node_type node_type
    then value (trimmed, node_type)
    else throw bad_type

-- `rec.nodeType && rec.nodeType !== nodeType`
unfoldable pub scope_allows : Option NodeType → NodeType → Bool
scope_allows none t = true
scope_allows (some scope) t = type_text scope == type_text t || type_text scope == ""

-- The fingerprint that is pinned: none without a certificate.
unfoldable pub pin : Platform → Option String → Result EnrollError (Option String)
pin p none = value none
pin p (some pem) =
    if pem == ""
    then value none
    else elim (p.fingerprint_of pem) [ none ↦ throw bad_certificate | some f ↦ value (some f) ]

-- `${nodeType}:${nodeName}`
unfoldable pub node_id_of : NodeType → String → String
node_id_of node_type name = type_text node_type ++ₛ (":" ++ₛ name)

pub record Request : Type 0 where
  pub token : Option String
  pub node_name : Option String
  pub node_type : NodeType
  pub client_cert : Option String

abbrev pub new_credential : Platform → String → NodeType → Option String → String → Credential
new_credential p name node_type fingerprint credential = record {
  node_id = node_id_of node_type name;
  node_name = name;
  node_type = node_type;
  credential_hash = p.sha256_hex credential;
  cert_fingerprint = fingerprint;
  revoked = false;
}

-- The part of `enroll` behind the checks: the token is consumed, and the credential stored.
unfoldable pub grant :
    Platform → Enrollment → String → Token → String → NodeType → Option String → String → Enrollment
grant p s hash t name node_type fingerprint credential =
    put_credential (put_token s hash (record t { used = true })) (node_id_of node_type name)
      (new_credential p name node_type fingerprint credential)

-- The checks on the identity, the scope and the certificate, and the grant.
unfoldable pub enroll_with :
    Platform
    → Enrollment
    → String
    → Token
    → Request
    → String
    → Result EnrollError (String × Enrollment)
unfolding assert_node_identity scope_allows pin grant
enroll_with p s hash t req credential = do
  (name, node_type) ← assert_node_identity req.node_name req.node_type
  throw_if (not (scope_allows t.node_type node_type)) wrong_scope
  fingerprint ← pin p req.client_cert
  value (node_id_of node_type name, grant p s hash t name node_type fingerprint credential)

abbrev pub settle :
    Enrollment → Result EnrollError (String × Enrollment) → Enrollment × Result EnrollError String
settle s (value (id, s')) = (s', value id)
settle s (throw e) = (s, throw e)

-- `enroll({ enrollmentToken, identity, clientCertPem })` at the time `now`, with the random
-- credential; an expired token is removed.
unfoldable pub enroll :
    Platform → Enrollment → ℕ → Request → String → Enrollment × Result EnrollError String
unfolding enroll_with
enroll p s now req credential =
    let hash = p.sha256_hex (get_or req.token "") in
    if not (truthy req.token) then (s, throw unknown_token) else elim (lookup hash s.tokens) [
      | none ↦ (s, throw unknown_token)
      | some t ↦
          if ltb t.expires_at now
          then (drop_token s hash, throw token_expired)
          else if t.one_time_use && t.used
          then (s, throw token_used)
          else settle s (enroll_with p s hash t req credential)
    ]

-- `safeEqualHex(a, b)`
abbrev pub safe_equal_hex : Platform → String → String → Bool
safe_equal_hex p a b = p.hex_bytes a == p.hex_bytes b

abbrev pub credential_matches : Platform → String → Option Credential → Bool
credential_matches p credential none = false
credential_matches p credential (some rec) =
    if rec.revoked || credential == ""
    then false
    else safe_equal_hex p (p.sha256_hex credential) rec.credential_hash

-- `verifyCredential(nodeId, credential)`
unfoldable pub verify_credential : Platform → Enrollment → String → String → Bool
verify_credential p s node_id credential =
    credential_matches p credential (lookup node_id s.credentials)

-- `normalizeFingerprint(fp)`; lower case is left out, since hex digits are read in either case.
unfoldable pub normalize_fingerprint : String → String
normalize_fingerprint String.[] = ""
normalize_fingerprint (String.◌∷◌ c s) =
    let rest = normalize_fingerprint s in if eqb (code c) 58 then rest else c ∷ₛ rest

abbrev pub cert_matches : Platform → String → Option Credential → Bool
cert_matches p fingerprint none = false
cert_matches p fingerprint (some rec) =
    if rec.revoked || not (truthy rec.cert_fingerprint) || fingerprint == ""
    then false
    else safe_equal_hex p (normalize_fingerprint (get_or rec.cert_fingerprint ""))
        (normalize_fingerprint fingerprint)

-- `verifyClientCert(nodeId, fingerprint256)`
unfoldable pub verify_client_cert : Platform → Enrollment → String → String → Bool
unfolding normalize_fingerprint
verify_client_cert p s node_id fingerprint =
    cert_matches p fingerprint (lookup node_id s.credentials)

-- `revokeCredential(nodeId)`
unfoldable pub revoke_credential : Enrollment → String → Enrollment × Bool
revoke_credential s node_id = elim (lookup node_id s.credentials) [
  | none ↦ (s, false)
  | some rec ↦ (put_credential s node_id (record rec { revoked = true }), true)
]

-- `revokeToken(token)`
unfoldable pub revoke_token : Platform → Enrollment → String → Enrollment × Bool
revoke_token p s token = let hash = p.sha256_hex token in (drop_token s hash, has hash s.tokens)

-- `load()` of a new service over a store: every row of the two tables is read back.
unfoldable pub load : Enrollment → Enrollment
load s = record s {
  tokens = merge s.tokens s.stored_tokens;
  credentials = merge s.credentials s.stored_credentials;
}

-- The operations of the service while it runs.
pub data Call : Type 0 where
  issue_call : (now : ℕ) (token : String) → Option NodeType → (ttl : ℕ) (one_time : Bool) → Call
  enroll_call : (now : ℕ) → Request → (credential : String) → Call
  revoke_credential_call : (node_id : String) → Call
  revoke_token_call : (token : String) → Call
  sweep_call : (now : ℕ) → Call

unfoldable pub call : Platform → Enrollment → Call → Enrollment
call p s (issue_call now token type ttl one_time) = issue_token p s now token type ttl one_time
call p s (enroll_call now req credential) = (enroll p s now req credential).0
call p s (revoke_credential_call node_id) = (revoke_credential s node_id).0
call p s (revoke_token_call token) = (revoke_token p s token).0
call p s (sweep_call now) = sweep_expired s now

unfoldable pub calls : Platform → Enrollment → List Call → Enrollment
calls p s [] = s
calls p s (c ∷ cs) = calls p (call p s c) cs

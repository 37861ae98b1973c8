-- ===== src/Server/Auth/Tests.antt =====
-- auth.mjs: requests of a node and of an operator.
use web_inspector.Prelude.{[], false, none, refl, some, ◌∷◌, ◌≡◌, string_eq}
use web_inspector.Prelude.Text.{drop_chars, is_space, starts_with_ci, trim, trim_end, trim_start}
use web_inspector.Prelude.Dict.{lookup}
use web_inspector.Contracts.Nodes.{azure_direct}
use web_inspector.Control.Enrollment.{
  Enrollment, Platform, calls, normalize_fingerprint, revoke_credential, sweep_call,
  verify_client_cert, verify_credential,
}
use web_inspector.Server.Auth.{
  AuthRequest, bearer, bearer_token, granted, mtls, new_tokens, not_operator, verify_node_auth,
  verify_operator,
}
use web_inspector.Server.Auth.Revoked.{is_granted, revoked_is_refused}

abbrev plain : Platform
plain = record { sha256_hex = λ s. s; fingerprint_of = λ s. some s; hex_bytes = λ s. s }

abbrev with_vm1 : Enrollment
with_vm1 = record {
  tokens = [];
  credentials =
      (
        "azure_direct:vm1",
        record {
          node_id = "azure_direct:vm1";
          node_name = "vm1";
          node_type = azure_direct;
          credential_hash = "cred";
          cert_fingerprint = some "AA:BB";
          revoked = false;
        },
      )
      ∷ [];
  stored_tokens = [];
  stored_credentials = [];
}

abbrev vm1_request : AuthRequest
vm1_request = record {
  node_id = some "azure_direct:vm1";
  authorization = some "bearer  cred ";
  peer_fingerprint = none;
}

test_bearer : verify_node_auth plain with_vm1 vm1_request ≡ granted "azure_direct:vm1" bearer
unfolding verify_node_auth verify_credential bearer_token trim trim_start trim_end is_space
    starts_with_ci drop_chars lookup
test_bearer = refl

test_certificate :
    verify_node_auth plain with_vm1 (record vm1_request { peer_fingerprint = some "AABB" })
    ≡ granted "azure_direct:vm1" mtls
unfolding verify_node_auth verify_client_cert normalize_fingerprint lookup
test_certificate = refl

test_closed :
    verify_operator (" " ∷ []) "op_1" (record vm1_request { authorization = some "Bearer guess" })
    ≡ not_operator "invalid operator credential"
unfolding verify_operator new_tokens bearer_token trim trim_start trim_end is_space starts_with_ci
    drop_chars
test_closed = refl

revoked_is_refused_example :
    is_granted (
      verify_node_auth plain
        (calls plain (revoke_credential with_vm1 "azure_direct:vm1").0 (sweep_call 200 ∷ []))
        vm1_request)
    ≡ false
revoked_is_refused_example =
    revoked_is_refused plain with_vm1 "azure_direct:vm1" (sweep_call 200 ∷ []) vm1_request (tt, tt)
      refl

-- ===== src/Server/Auth/Revoked.antt =====
-- auth.mjs: what a revocation shuts out.
use web_inspector.Prelude.{
  All, Bool, List, Option, Option-cases, String, arith, false, if_cases, inl, inr, none, not, refl,
  some, subst, sym, true, ◌==◌, ◌≡◌, string_eq,
}
use web_inspector.Prelude.Dict.{lookup}
use web_inspector.Control.Enrollment.{
  Call, Enrollment, Platform, calls, revoke_credential, verify_client_cert, verify_credential,
}
use web_inspector.Control.Enrollment.Credentials.{IsBarred, Spares, calls-IsBarred, revoke-IsBarred}
use web_inspector.Server.Auth.{
  AuthRequest, NodeAuth, auth_with, bearer_token, by_certificate, by_credential, granted,
  peer_cert_fingerprint, refused, verify_node_auth,
}

abbrev pub is_granted : NodeAuth → Bool
is_granted (granted node_id method) = true
is_granted (refused reason) = false

module _ (p : Platform) (s : Enrollment) (id : String) (barred : IsBarred id s) where
  no_certificate : (fingerprint : String) → verify_client_cert p s id fingerprint ≡ false
  unfolding verify_client_cert
  no_certificate fingerprint = elim (Option-cases (lookup id s.credentials)) [
    | inl absent ↦ rw absent refl
    | inr (c, e) ↦ rw e (ground (arith, barred c e))
  ]

  no_credential : (credential : String) → verify_credential p s id credential ≡ false
  unfolding verify_credential
  no_credential credential = elim (Option-cases (lookup id s.credentials)) [
    | inl absent ↦ rw absent refl
    | inr (c, e) ↦ rw e (ground (arith, barred c e))
  ]

  no_bearer :
      (has_cert : Bool) (token : Option String)
      → is_granted (by_credential p s id has_cert token) ≡ false
  no_bearer has_cert none = refl
  no_bearer has_cert (some credential) =
      if_cases (λ (a : NodeAuth). is_granted a ≡ false) (not (verify_credential p s id credential))
        (λ _. refl) (λ h. absurd (ground (arith, h, no_credential credential)))

  no_way_in :
      (header fingerprint : Option String)
      → is_granted (by_certificate p s id header fingerprint) ≡ false
  no_way_in header none = no_bearer false (bearer_token header)
  no_way_in header (some fingerprint) =
      if_cases (λ (a : NodeAuth). is_granted a ≡ false) (verify_client_cert p s id fingerprint)
        (λ h. absurd (ground (arith, h, no_certificate fingerprint)))
        (λ _. no_bearer true (bearer_token header))

-- After the credential of a node is revoked no request in its name is granted, neither for a certificate
-- nor for a bearer credential, whatever calls of the enrollment service follow that do not enroll it again.
pub revoked_is_refused :
    (p : Platform) (s : Enrollment) (id : String) (cs : List Call) (req : AuthRequest)
    → All (Spares id) cs
    → req.node_id ≡ some id
    → is_granted (verify_node_auth p (calls p (revoke_credential s id).0 cs) req) ≡ false
unfolding verify_node_auth
revoked_is_refused p s id cs req spared named =
    let s' = calls p (revoke_credential s id).0 cs in
    let barred = calls-IsBarred p (revoke_credential s id).0 cs id spared (revoke-IsBarred s id) in
    subst (λ o. is_granted (auth_with p s' req o) ≡ false) (sym named)
      (if_cases (λ (a : NodeAuth). is_granted a ≡ false) (id == "") (λ _. refl)
        (λ _. no_way_in p s' id barred req.authorization (peer_cert_fingerprint req)))

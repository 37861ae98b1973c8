-- ===== src/Control/Enrollment/Credentials.antt =====
-- Which credential a node is known by after it has enrolled, and after it was revoked.
use web_inspector.Prelude.Text.{trim}
use web_inspector.Contracts.Nodes.{NodeType}
use web_inspector.Control.Enrollment.Tokens.{settle_cases}
use web_inspector.Prelude.{
  String, false, subst, sym, true, value, ℕ, ◌==◌, ◌↔◌, ◌≡◌, All, Bool, List, Option, Option-cases,
  Result, [], ap, arith, eq_iff, get_or, if_cases, if◌then◌else◌, inl, inr, ltb, not, option_cases,
  refl, some, truthy, ◌&&◌, ◌∙◌, ◌∷◌, ◌≢◌, string_eq,
}
use web_inspector.Prelude.Dict.{lookup, lookup-insert_cases, lookup-insert_ne, lookup-insert_self}
use web_inspector.Control.Enrollment.Grants.{enroll-Enrolled, Granted, enroll_with-Granted}
use web_inspector.Control.Enrollment.{
  Enrollment, Platform, Request, credential_matches, enroll, verify_credential, Call, Credential,
  EnrollError, Token, call, calls, drop_token, enroll_call, enroll_with, grant, is_stale,
  issue_call, issue_token, node_id_of, revoke_credential, revoke_credential_call, revoke_token,
  revoke_token_call, sweep_call, sweep_entries, sweep_expired, new_credential,
}

-- What the program relies on: two secrets with the same bytes of a digest are the same secret.
abbrev pub IsCollisionFree : Platform → Type 0
IsCollisionFree p =
    (a b : String) → p.hex_bytes (p.sha256_hex a) ≡ p.hex_bytes (p.sha256_hex b) → a ≡ b

matches_own :
    (p : Platform) (rec : Credential) (credential presented : String)
    → IsCollisionFree p
    → (credential == "") ≡ false
    → rec.revoked ≡ false
    → rec.credential_hash ≡ p.sha256_hex credential
    → (credential_matches p presented (some rec) ≡ true) ↔ (presented ≡ credential)
matches_own p rec credential presented free not_blank live hashed =
    let same = eq_iff (p.hex_bytes (p.sha256_hex presented)) (p.hex_bytes rec.credential_hash) in
    (
      λ h. free presented credential (ground (arith, same)),
      λ e. ground (arith, same, eq_iff presented ""),
    )

verify_granted :
    (p : Platform) (s : Enrollment) (hash : String) (t : Token) (name : String) (type : NodeType)
    (f : Option String) (credential id presented : String)
    → IsCollisionFree p
    → (credential == "") ≡ false
    → id ≡ node_id_of type name
    → (credential_matches p presented
          (lookup id (grant p s hash t name type f credential).credentials)
        ≡ true)
      ↔ (presented ≡ credential)
unfolding grant
verify_granted p s hash t name type f credential id presented free not_blank e =
    let made = new_credential p name type f credential in
    rw (e, lookup-insert_self (node_id_of type name) made s.credentials)
      (matches_own p made credential presented free not_blank refl refl)

-- After a successful enrollment the node is known by exactly the credential that was returned.
pub verify_enrolled :
    (p : Platform) (s : Enrollment) (now : ℕ) (req : Request) (credential id presented : String)
    → IsCollisionFree p
    → (credential == "") ≡ false
    → (enroll p s now req credential).1 ≡ value id
    → (verify_credential p (enroll p s now req credential).0 id presented ≡ true)
      ↔ (presented ≡ credential)
unfolding verify_credential
verify_enrolled p s now req credential id presented free not_blank done =
    let run = enroll-Enrolled p s now req credential id done in
    let ran = run.granted_by in
    subst
      (λ s'.
        (credential_matches p presented (lookup id s'.credentials) ≡ true)
        ↔ (presented ≡ credential))
      (sym ran.state_is)
      (verify_granted p s (p.sha256_hex (get_or req.token "")) run.token ran.name req.node_type
        ran.fingerprint credential id presented free not_blank ran.id_is)

-- The node has no credential, or a revoked one.
abbrev pub IsBarred : String → Enrollment → Type 0
IsBarred id s = (c : Credential) → lookup id s.credentials ≡ some c → c.revoked ≡ true

-- No call enrolls this node.
abbrev pub Spares : String → Call → Type 0
Spares id (enroll_call now req credential) =
    node_id_of req.node_type (trim (get_or req.node_name "")) ≢ id
Spares id _ = Unit

sweep-IsBarred :
    (id : String) (now : ℕ) (entries : List (String × Token)) (s : Enrollment)
    → IsBarred id s
    → IsBarred id (sweep_entries now entries s)
unfolding sweep_entries
sweep-IsBarred id now [] s barred = barred
sweep-IsBarred id now ((other, t) ∷ rest) s barred =
    sweep-IsBarred id now rest (if is_stale now t then drop_token s other else s)
      (if_cases (IsBarred id) (is_stale now t) (λ _. barred) (λ _. barred))

enroll-IsBarred :
    (p : Platform) (s : Enrollment) (now : ℕ) (req : Request) (credential id : String)
    → node_id_of req.node_type (trim (get_or req.node_name "")) ≢ id
    → IsBarred id s
    → IsBarred id (enroll p s now req credential).0
unfolding enroll
enroll-IsBarred p s now req credential id spares barred =
    let P : Enrollment × Result EnrollError String → Type 0 = λ r. IsBarred id r.0 in
    let own = p.sha256_hex (get_or req.token "") in
    if_cases P (not (truthy req.token)) (λ _. barred)
      (λ _.
        option_cases P (lookup own s.tokens) (λ _. barred)
          (λ t e.
            if_cases P (ltb t.expires_at now) (λ _. barred)
              (λ _.
                if_cases P (t.one_time_use && t.used) (λ _. barred)
                  (λ _.
                    settle_cases (IsBarred id) s (enroll_with p s own t req credential) barred
                      (λ made s' h.
                        granted_other own t s'
                          (enroll_with-Granted p s own t req credential made s' h))))))
  where
    granted_other :
        (hash : String) (t : Token) (s' : Enrollment) {made : String}
        → Granted p s hash t req credential made s'
        → IsBarred id s'
    granted_other hash t s' g = subst (IsBarred id) (sym g.state_is) (
        unfold grant in
        λ c h. barred c (
          rw
            (lookup-insert_ne (node_id_of req.node_type g.name) id _ s.credentials
              (λ e. spares (ap (node_id_of req.node_type) (sym g.named) ∙ e)))
            at h))

call-IsBarred :
    (p : Platform) (s : Enrollment) (c : Call) (id : String)
    → Spares id c
    → IsBarred id s
    → IsBarred id (call p s c)
unfolding call revoke_token sweep_expired issue_token
call-IsBarred p s (issue_call now token type ttl one_time) id a barred =
    sweep-IsBarred id now s.tokens s barred
call-IsBarred p s (enroll_call now req credential) id a barred =
    enroll-IsBarred p s now req credential id a barred
call-IsBarred p s (revoke_credential_call node_id) id a barred =
    let P : Enrollment × Bool → Type 0 = λ r. IsBarred id r.0 in
    unfold revoke_credential in
    option_cases P (lookup node_id s.credentials) (λ _. barred)
      (λ rec e c h. ground (
        arith,
        lookup-insert_cases node_id id (record rec { revoked = true }) c s.credentials h,
        barred c,
      ))
call-IsBarred p s (revoke_token_call token) id a barred = barred
call-IsBarred p s (sweep_call now) id a barred = sweep-IsBarred id now s.tokens s barred

pub calls-IsBarred :
    (p : Platform) (s : Enrollment) (cs : List Call) (id : String)
    → All (Spares id) cs
    → IsBarred id s
    → IsBarred id (calls p s cs)
unfolding calls
calls-IsBarred p s [] id a barred = barred
calls-IsBarred p s (c ∷ cs) id a barred =
    calls-IsBarred p (call p s c) cs id a.1 (call-IsBarred p s c id a.0 barred)

pub revoke-IsBarred : (s : Enrollment) (id : String) → IsBarred id (revoke_credential s id).0
unfolding revoke_credential
revoke-IsBarred s id =
    let P : Enrollment × Bool → Type 0 = λ r. IsBarred id r.0 in
    option_cases P (lookup id s.credentials) (λ absent c h. absurd (ground (arith, absent, h)))
      (λ rec e c h.
        ground (arith, lookup-insert_self id (record rec { revoked = true }) s.credentials))

-- After a revocation no credential verifies for the node, whatever calls follow, until it enrolls
-- again.
pub revoked_stays :
    (p : Platform) (s : Enrollment) (id presented : String) (cs : List Call)
    → All (Spares id) cs
    → verify_credential p (calls p (revoke_credential s id).0 cs) id presented ≡ false
unfolding verify_credential
revoked_stays p s id presented cs a =
    let s' = calls p (revoke_credential s id).0 cs in
    let barred : IsBarred id s' =
      calls-IsBarred p (revoke_credential s id).0 cs id a (revoke-IsBarred s id) in
    elim (Option-cases (lookup id s'.credentials)) [
      | inl absent ↦ rw absent refl
      | inr (c, e) ↦ rw e (ground (arith, barred c e))
    ]

-- ===== src/Control/Enrollment/Restart.antt =====
-- A service that is loaded from the store of another knows what that one knew.
use web_inspector.Prelude.{
  Bool, List, Option, Result, String, [], ap, get_or, if_cases, if◌then◌else◌, ltb, not,
  option_cases, refl, subst, sym, true, truthy, ℕ, ◌&&◌, ◌∷◌, ◌≡◌, string_eq,
}
use web_inspector.Prelude.Dict.{
  NoRepeat, delete, delete-NoRepeat, insert, insert-NoRepeat, lookup, lookup-reload,
}
use web_inspector.Contracts.Nodes.{NodeType}
use web_inspector.Control.Enrollment.Grants.{enroll_with-Granted}
use web_inspector.Control.Enrollment.Tokens.{settle_cases}
use web_inspector.Control.Enrollment.{
  Call, Credential, EnrollError, Enrollment, Platform, Request, Token, call, calls, drop_token,
  enroll, enroll_call, enroll_with, grant, is_stale, issue_call, issue_token, load, node_id_of,
  put_credential, put_token, revoke_credential, revoke_credential_call, revoke_token,
  revoke_token_call, sweep_call, sweep_entries, sweep_expired, verify_credential,
}

-- The tables of the store are the maps, and no key stands twice in one.
pub record IsSynced (s : Enrollment) : Type 0 where
  pub same_tokens : s.stored_tokens ≡ s.tokens
  pub same_credentials : s.stored_credentials ≡ s.credentials
  pub token_keys : NoRepeat s.tokens
  pub credential_keys : NoRepeat s.credentials

put_token-IsSynced :
    (s : Enrollment) (hash : String) (t : Token) → IsSynced s → IsSynced (put_token s hash t)
put_token-IsSynced s hash t h = record {
  same_tokens = ap (insert hash t) h.same_tokens;
  same_credentials = h.same_credentials;
  token_keys = insert-NoRepeat hash t s.tokens h.token_keys;
  credential_keys = h.credential_keys;
}

drop_token-IsSynced : (s : Enrollment) (hash : String) → IsSynced s → IsSynced (drop_token s hash)
drop_token-IsSynced s hash h = record {
  same_tokens = ap (delete hash) h.same_tokens;
  same_credentials = h.same_credentials;
  token_keys = delete-NoRepeat hash s.tokens h.token_keys;
  credential_keys = h.credential_keys;
}

put_credential-IsSynced :
    (s : Enrollment) (id : String) (c : Credential) → IsSynced s → IsSynced (put_credential s id c)
put_credential-IsSynced s id c h = record {
  same_tokens = h.same_tokens;
  same_credentials = ap (insert id c) h.same_credentials;
  token_keys = h.token_keys;
  credential_keys = insert-NoRepeat id c s.credentials h.credential_keys;
}

sweep-IsSynced :
    (now : ℕ) (entries : List (String × Token)) (s : Enrollment)
    → IsSynced s
    → IsSynced (sweep_entries now entries s)
unfolding sweep_entries
sweep-IsSynced now [] s h = h
sweep-IsSynced now ((hash, t) ∷ rest) s h =
    sweep-IsSynced now rest (if is_stale now t then drop_token s hash else s)
      (if_cases IsSynced (is_stale now t) (λ _. drop_token-IsSynced s hash h) (λ _. h))

grant-IsSynced :
    (p : Platform) (s : Enrollment) (hash : String) (t : Token) (name : String) (type : NodeType)
    (f : Option String) (credential : String)
    → IsSynced s
    → IsSynced (grant p s hash t name type f credential)
unfolding grant
grant-IsSynced p s hash t name type f credential h =
    put_credential-IsSynced (put_token s hash (record t { used = true })) (node_id_of type name) _
      (put_token-IsSynced s hash (record t { used = true }) h)

enroll-IsSynced :
    (p : Platform) (s : Enrollment) (now : ℕ) (req : Request) (credential : String)
    → IsSynced s
    → IsSynced (enroll p s now req credential).0
unfolding enroll
enroll-IsSynced p s now req credential synced =
    let P : Enrollment × Result EnrollError String → Type 0 = λ r. IsSynced r.0 in
    let own = p.sha256_hex (get_or req.token "") in
    if_cases P (not (truthy req.token)) (λ _. synced)
      (λ _.
        option_cases P (lookup own s.tokens) (λ _. synced)
          (λ t e.
            if_cases P (ltb t.expires_at now) (λ _. drop_token-IsSynced s own synced)
              (λ _.
                if_cases P (t.one_time_use && t.used) (λ _. synced)
                  (λ _.
                    settle_cases IsSynced s (enroll_with p s own t req credential) synced
                      (λ made s' h.
                        let g = enroll_with-Granted p s own t req credential made s' h in
                        subst IsSynced (sym g.state_is) (
                          grant-IsSynced p s own t g.name req.node_type g.fingerprint credential
                            synced))))))

call-IsSynced : (p : Platform) (s : Enrollment) (c : Call) → IsSynced s → IsSynced (call p s c)
unfolding call revoke_token sweep_expired issue_token
call-IsSynced p s (issue_call now token type ttl one_time) h =
    put_token-IsSynced (sweep_entries now s.tokens s) (p.sha256_hex token) _
      (sweep-IsSynced now s.tokens s h)
call-IsSynced p s (enroll_call now req credential) h = enroll-IsSynced p s now req credential h
call-IsSynced p s (revoke_credential_call node_id) h =
    let P : Enrollment × Bool → Type 0 = λ r. IsSynced r.0 in
    unfold revoke_credential in
    option_cases P (lookup node_id s.credentials) (λ _. h)
      (λ rec e. put_credential-IsSynced s node_id (record rec { revoked = true }) h)
call-IsSynced p s (revoke_token_call token) h = drop_token-IsSynced s (p.sha256_hex token) h
call-IsSynced p s (sweep_call now) h = sweep-IsSynced now s.tokens s h

calls-IsSynced :
    (p : Platform) (s : Enrollment) (cs : List Call) → IsSynced s → IsSynced (calls p s cs)
unfolding calls
calls-IsSynced p s [] h = h
calls-IsSynced p s (c ∷ cs) h = calls-IsSynced p (call p s c) cs (call-IsSynced p s c h)

abbrev pub empty : Enrollment
empty = record { tokens = []; credentials = []; stored_tokens = []; stored_credentials = [] }

-- A new service over the store that another one has left.
abbrev pub restart : Enrollment → Enrollment
restart s = load (record s { tokens = []; credentials = [] })

empty-IsSynced : IsSynced empty
empty-IsSynced = record {
  same_tokens = refl;
  same_credentials = refl;
  token_keys = tt;
  credential_keys = tt;
}

-- After any calls, a restarted service has every token that the old one had, used or not, and
-- verifies exactly the credentials that the old one verified.
pub restart_keeps :
    (p : Platform) (cs : List Call) (hash id presented : String)
    → let s = calls p empty cs in
      (lookup hash (restart s).tokens ≡ lookup hash s.tokens)
      × (verify_credential p (restart s) id presented ≡ verify_credential p s id presented)
unfolding load verify_credential
restart_keeps p cs hash id presented =
    let s = calls p empty cs in
    let h = calls-IsSynced p empty cs empty-IsSynced in
    (
      rw h.same_tokens (lookup-reload hash s.tokens h.token_keys),
      rw (h.same_credentials, lookup-reload id s.credentials h.credential_keys),
    )

-- ===== src/Control/Enrollment/Tokens.antt =====
-- An enrollment token that may be used once is used at most once.
use web_inspector.Prelude.{
  Bool, List, Option, String, [], arith, eq_iff, if_cases, if◌then◌else◌, some, true, ℕ, ◌∷◌, ◌≡◌,
  ◌≢◌, All, Result, false, get_or, ltb, not, option_cases, refl, subst, sym, throw, truthy, value,
  ◌&&◌, string_eq,
}
use web_inspector.Prelude.Dict.{
  Dict, delete, lookup, lookup-delete, lookup-insert_ne, insert, lookup-insert_cases,
  lookup-insert_self,
}
use web_inspector.Contracts.Nodes.{NodeType}
use web_inspector.Control.Enrollment.Grants.{enroll_with-Granted, enroll-Enrolled}
use web_inspector.Control.Enrollment.{
  Enrollment, Platform, Request, Token, drop_token, enroll, enroll_with, is_stale, issue_token,
  sweep_entries, sweep_expired, Call, EnrollError, call, calls, enroll_call, grant, issue_call,
  revoke_credential, revoke_credential_call, revoke_token, revoke_token_call, settle, sweep_call,
}

-- The token of this hash is spent or gone.
abbrev pub IsSpent : String → Dict String Token → Type 0
IsSpent hash tokens =
    (t : Token) → lookup hash tokens ≡ some t → (t.one_time_use ≡ true) × (t.used ≡ true)

IsSpent-drop :
    (hash other : String) (tokens : Dict String Token)
    → IsSpent hash tokens
    → IsSpent hash (delete other tokens)
IsSpent-drop hash other tokens spent t h =
    spent t (ground (arith, lookup-delete other hash tokens, eq_iff other hash))

abbrev SweptSpent : String → Enrollment → Type 0
SweptSpent hash s = IsSpent hash s.tokens

sweep-IsSpent :
    (hash : String) (now : ℕ) (entries : List (String × Token)) (s : Enrollment)
    → SweptSpent hash s
    → SweptSpent hash (sweep_entries now entries s)
unfolding sweep_entries
sweep-IsSpent hash now [] s spent = spent
sweep-IsSpent hash now ((other, t) ∷ rest) s spent =
    sweep-IsSpent hash now rest (if is_stale now t then drop_token s other else s) (
      if_cases (SweptSpent hash) (is_stale now t) (λ _. IsSpent-drop hash other s.tokens spent)
        (λ _. spent))

issue-IsSpent :
    (p : Platform) (s : Enrollment) (now : ℕ) (token : String) (type : Option NodeType) (ttl : ℕ)
    (one_time : Bool) (hash : String)
    → p.sha256_hex token ≢ hash
    → SweptSpent hash s
    → SweptSpent hash (issue_token p s now token type ttl one_time)
unfolding issue_token sweep_expired
issue-IsSpent p s now token type ttl one_time hash differs spent t h =
    sweep-IsSpent hash now s.tokens s spent t
      (rw (lookup-insert_ne (p.sha256_hex token) hash _ _ differs) at h)

pub settle_cases :
    (P : Enrollment → Type 0) (s : Enrollment) (r : Result EnrollError (String × Enrollment))
    → P s
    → ((id : String) (s' : Enrollment) → r ≡ value (id, s') → P s')
    → P (settle s r).0
settle_cases P s (value (id, s')) kept granted = granted id s' refl
settle_cases P s (throw e) kept granted = kept

-- A grant marks its own token as used and touches no other.
IsSpent-grant :
    (s : Enrollment) (other hash : String) (t : Token)
    → lookup other s.tokens ≡ some t
    → (t.one_time_use && t.used) ≡ false
    → SweptSpent hash s
    → IsSpent hash (insert other (record t { used = true }) s.tokens)
IsSpent-grant s other hash t e unused spent u h = ground (
  arith,
  lookup-insert_cases other hash (record t { used = true }) u s.tokens h,
  spent t,
  spent u,
)

-- What one attempt to enroll leaves of a spent token.
enroll-IsSpent :
    (p : Platform) (s : Enrollment) (now : ℕ) (req : Request) (credential hash : String)
    → SweptSpent hash s
    → SweptSpent hash (enroll p s now req credential).0
unfolding enroll
enroll-IsSpent p s now req credential hash spent =
    let P : Enrollment × Result EnrollError String → Type 0 = λ r. SweptSpent hash r.0 in
    let own = p.sha256_hex (get_or req.token "") in
    if_cases P (not (truthy req.token)) (λ _. spent)
      (λ _.
        option_cases P (lookup own s.tokens) (λ _. spent)
          (λ t e.
            if_cases P (ltb t.expires_at now) (λ _. IsSpent-drop hash own s.tokens spent)
              (λ _.
                if_cases P (t.one_time_use && t.used) (λ _. spent)
                  (λ unused.
                    settle_cases (SweptSpent hash) s (enroll_with p s own t req credential) spent
                      (λ id s' h.
                        subst (SweptSpent hash)
                          (sym (enroll_with-Granted p s own t req credential id s' h).state_is)
                          (unfold grant in IsSpent-grant s own hash t e unused spent))))))

-- No call issues the token of this hash again.
abbrev pub Avoids : Platform → String → Call → Type 0
Avoids p hash (issue_call now token type ttl one_time) = p.sha256_hex token ≢ hash
Avoids p hash _ = Unit

call-IsSpent :
    (p : Platform) (s : Enrollment) (c : Call) (hash : String)
    → Avoids p hash c
    → SweptSpent hash s
    → SweptSpent hash (call p s c)
unfolding call revoke_token sweep_expired
call-IsSpent p s (issue_call now token type ttl one_time) hash a spent =
    issue-IsSpent p s now token type ttl one_time hash a spent
call-IsSpent p s (enroll_call now req credential) hash a spent =
    enroll-IsSpent p s now req credential hash spent
call-IsSpent p s (revoke_credential_call node_id) hash a spent =
    let P : Enrollment × Bool → Type 0 = λ r. SweptSpent hash r.0 in
    unfold revoke_credential in
    option_cases P (lookup node_id s.credentials) (λ _. spent) (λ rec _. spent)
call-IsSpent p s (revoke_token_call token) hash a spent =
    IsSpent-drop hash (p.sha256_hex token) s.tokens spent
call-IsSpent p s (sweep_call now) hash a spent = sweep-IsSpent hash now s.tokens s spent

calls-IsSpent :
    (p : Platform) (s : Enrollment) (cs : List Call) (hash : String)
    → All (Avoids p hash) cs
    → SweptSpent hash s
    → SweptSpent hash (calls p s cs)
unfolding calls
calls-IsSpent p s [] hash a spent = spent
calls-IsSpent p s (c ∷ cs) hash a spent =
    calls-IsSpent p (call p s c) cs hash a.1 (call-IsSpent p s c hash a.0 spent)

abbrev pub IsThrow : {A : Type 0} → Result EnrollError A → Type 0
IsThrow (value a) = ⊥
IsThrow (throw e) = Unit

spent_refused :
    (p : Platform) (s : Enrollment) (now : ℕ) (req : Request) (credential : String)
    → SweptSpent (p.sha256_hex (get_or req.token "")) s
    → IsThrow (enroll p s now req credential).1
unfolding enroll
spent_refused p s now req credential spent =
    let P : Enrollment × Result EnrollError String → Type 0 = λ r. IsThrow r.1 in
    if_cases P (not (truthy req.token)) (λ _. tt)
      (λ _.
        option_cases P (lookup (p.sha256_hex (get_or req.token "")) s.tokens) (λ _. tt)
          (λ t e.
            if_cases P (ltb t.expires_at now) (λ _. tt)
              (λ _.
                if_cases P (t.one_time_use && t.used) (λ _. tt)
                  (λ unused. absurd (ground (arith, spent t e))))))

-- A token that was issued for one use, once an enrollment with it has succeeded, lets no other
-- enrollment succeed: not for any identity, at any time, after any calls that do not issue a token
-- with the same digest.
pub one_time_token_once :
    (p : Platform) (s : Enrollment) (now later : ℕ) (req again : Request)
    (credential other id : String) (t : Token) (cs : List Call)
    → lookup (p.sha256_hex (get_or req.token "")) s.tokens ≡ some t
    → t.one_time_use ≡ true
    → (enroll p s now req credential).1 ≡ value id
    → again.token ≡ req.token
    → All (Avoids p (p.sha256_hex (get_or req.token ""))) cs
    → IsThrow (enroll p (calls p (enroll p s now req credential).0 cs) later again other).1
one_time_token_once p s now later req again credential other id t cs e once done same a =
    let hash = p.sha256_hex (get_or req.token "") in
    let after = (enroll p s now req credential).0 in
    let ran = enroll-Enrolled p s now req credential id done in
    let spent : SweptSpent hash after =
      subst (SweptSpent hash) (sym ran.granted_by.state_is)
        (unfold grant in spent_by_grant s hash ran.token (ground (arith, ran.known, e))) in
    spent_refused p (calls p after cs) later again other (
      subst (λ (o : Option String). SweptSpent (p.sha256_hex (get_or o "")) (calls p after cs))
        (sym same) (calls-IsSpent p after cs hash a spent))
  where
    spent_by_grant :
        (s : Enrollment) (hash : String) (t : Token)
        → t.one_time_use ≡ true
        → IsSpent hash (insert hash (record t { used = true }) s.tokens)
    spent_by_grant s hash t once u h =
        ground (arith, lookup-insert_self hash (record t { used = true }) s.tokens)

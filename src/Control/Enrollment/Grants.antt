-- ===== src/Control/Enrollment/Grants.antt =====
-- What a successful enrollment has checked, and the state that it leaves.
use web_inspector.Prelude.Dict.{lookup}
use web_inspector.Prelude.{
  >>=-eq-value, Option, String, arith, false, get_or, not, throw_if, throw_if-eq-value, true, value,
  ◌==◌, ◌≡◌, Result, if_cases, ltb, option_cases, some, throw, truthy, ℕ, ◌&&◌, string_eq,
}
use web_inspector.Prelude.Text.{trim}
use web_inspector.Contracts.Nodes.{NodeType, is_node_type}
use web_inspector.Control.Enrollment.{
  Enrollment, Platform, Request, Token, assert_node_identity, enroll_with, grant, node_id_of, pin,
  scope_allows, wrong_scope, EnrollError, enroll, settle,
}

-- The facts behind a granted request.
pub record Granted (p : Platform) (s : Enrollment) (hash : String) (t : Token) (req : Request)
    (credential id : String) (s' : Enrollment) : Type 0 where
  pub name : String
  pub fingerprint : Option String
  pub named : name ≡ trim (get_or req.node_name "")
  pub not_empty : (name == "") ≡ false
  pub known_type : is_node_type req.node_type ≡ true
  pub in_scope : scope_allows t.node_type req.node_type ≡ true
  pub pinned : pin p req.client_cert ≡ value fingerprint
  pub id_is : id ≡ node_id_of req.node_type name
  pub state_is : s' ≡ grant p s hash t name req.node_type fingerprint credential

assert_identity_value :
    (name : Option String) (type : NodeType) (n : String) (t : NodeType)
    → assert_node_identity name type ≡ value (n, t)
    → (n ≡ trim (get_or name "")) × ((n == "") ≡ false) × (is_node_type type ≡ true) × (t ≡ type)
unfolding assert_node_identity
assert_identity_value name type n t h = ground arith

module _ (p : Platform) (s : Enrollment) (hash : String) (t : Token) (req : Request)
    (credential id : String) (s' : Enrollment) where
  granted :
      (name : String) (type : NodeType) (f : Option String)
      → (name ≡ trim (get_or req.node_name ""))
        × ((name == "") ≡ false)
        × (is_node_type req.node_type ≡ true)
        × (type ≡ req.node_type)
      → not (scope_allows t.node_type type) ≡ false
      → pin p req.client_cert ≡ value f
      → ◌≡◌ {A = Result EnrollError (String × Enrollment)}
          (value (node_id_of type name, grant p s hash t name type f credential))
          (value (id, s'))
      → Granted p s hash t req credential id s'
  granted name type f facts allowed pinned h = record {
    name = name;
    fingerprint = f;
    named = facts.0;
    not_empty = facts.1;
    known_type = facts.2;
    in_scope = ground (arith, facts.3);
    pinned = pinned;
    id_is = ground (arith, facts.3);
    state_is = ground (arith, facts.3);
  }

  pub enroll_with-Granted :
      enroll_with p s hash t req credential ≡ value (id, s')
      → Granted p s hash t req credential id s'
  unfolding enroll_with
  enroll_with-Granted h =
      let (a, e₁, h₁) = >>=-eq-value (assert_node_identity req.node_name req.node_type) _ h in
      let (u, e₂, h₂) =
        >>=-eq-value (throw_if (not (scope_allows t.node_type a.1)) wrong_scope) _ h₁ in
      let (f, e₃, h₃) = >>=-eq-value (pin p req.client_cert) _ h₂ in
      granted a.0 a.1 f (assert_identity_value req.node_name req.node_type a.0 a.1 e₁)
        (throw_if-eq-value (not (scope_allows t.node_type a.1)) wrong_scope e₂) e₃ h₃

-- A successful enrollment: a known token, in its time, not used up, and a granted request.
pub record Enrolled (p : Platform) (s : Enrollment) (now : ℕ) (req : Request)
    (credential id : String) (s' : Enrollment) : Type 0 where
  pub token : Token
  pub presented : truthy req.token ≡ true
  pub known : lookup (p.sha256_hex (get_or req.token "")) s.tokens ≡ some token
  pub in_time : ltb token.expires_at now ≡ false
  pub unused : (token.one_time_use && token.used) ≡ false
  pub granted_by : Granted p s (p.sha256_hex (get_or req.token "")) token req credential id s'

settle_value :
    (s : Enrollment) (r : Result EnrollError (String × Enrollment)) (id : String)
    → (settle s r).1 ≡ value id
    → r ≡ value (id, (settle s r).0)
settle_value s (value (i, s')) id h = ground arith
settle_value s (throw e) id h = cc

-- An enrollment succeeds only with a token that is known, not expired and not used up, for a name
-- that is not blank, a type that is one of the five and in the token's scope, and a certificate that
-- parses if there is one; the state that it leaves is that of the grant.
pub enroll-Enrolled :
    (p : Platform) (s : Enrollment) (now : ℕ) (req : Request) (credential id : String)
    → (enroll p s now req credential).1 ≡ value id
    → Enrolled p s now req credential id (enroll p s now req credential).0
unfolding enroll
enroll-Enrolled p s now req credential id =
    let hash = p.sha256_hex (get_or req.token "") in
    let P : Enrollment × Result EnrollError String → Type 0 =
      λ r. r.1 ≡ value id → Enrolled p s now req credential id r.0 in
    if_cases P (not (truthy req.token)) (λ _ h. cc)
      (λ presented.
        option_cases P (lookup hash s.tokens) (λ _ h. cc)
          (λ t e.
            if_cases P (ltb t.expires_at now) (λ _ h. cc)
              (λ in_time.
                if_cases P (t.one_time_use && t.used) (λ _ h. cc)
                  (λ unused h. record {
                    token = t;
                    presented = ground arith;
                    known = e;
                    in_time = in_time;
                    unused = unused;
                    granted_by =
                        enroll_with-Granted p s hash t req credential id _
                          (settle_value s (enroll_with p s hash t req credential) id h);
                  }))))

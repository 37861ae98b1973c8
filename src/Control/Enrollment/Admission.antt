-- ===== src/Control/Enrollment/Admission.antt =====
-- control-plane/control/enrollment.mjs: whom `enroll` admits, and what it leaves in the tables.
use Prim.Native.String.{◌++◌ as ◌++ₛ◌}
use web_inspector.Prelude.{
  Bool, Bool-cases, Option, Result, String, ap, arith, eq_iff, false, get_or, if◌then◌else◌, inl,
  inr, none, refl, some, throw, true, truthy, value, ℕ, ◌&&◌, ◌==◌, ◌∙◌, ◌≡◌, ◌≢◌, ◌≤◌, ◌⊎◌, sym,
  string_eq,
}
use web_inspector.Prelude.Dict.{lookup, lookup-insert}
use web_inspector.Prelude.Text.{trim}
use web_inspector.Contracts.Nodes.{NodeType, type_text}
use web_inspector.Control.Enrollment.{
  EnrollError, Enrollment, Platform, Request, Token, bad_certificate, enroll, grant, new_credential,
  node_id_of, pin, scope_allows,
}
use web_inspector.Control.Enrollment.Grants.{enroll-Enrolled}

-- A token is for any type, for the type of the node, or for an empty one.
abbrev pub InScope : Option NodeType → NodeType → Type 0
InScope none type = Unit
InScope (some scope) type = (type_text scope ≡ type_text type) ⊎ (type_text scope ≡ "")

-- What is pinned of the certificate that came with a request: nothing if there is none or an empty one,
-- its fingerprint otherwise.
abbrev pub IsPinned : Platform → Option String → Option String → Type 0
IsPinned p none pinned = pinned ≡ none
IsPinned p (some pem) pinned =
    ((pem ≡ "") × (pinned ≡ none))
    ⊎ ((print : String) × (p.fingerprint_of pem ≡ some print) × (pinned ≡ some print))

-- The state `new` that is left of `old` when a request has enrolled a node under an id.
pub record Admits (p : Platform) (old : Enrollment) (now : ℕ) (req : Request)
    (credential id : String) (new : Enrollment) : Type 0 where
  pub presented : String
  pub token : Token
  pub name : String
  pub pinned : Option String
  pub has_token : req.token ≡ some presented
  pub known : lookup (p.sha256_hex presented) old.tokens ≡ some token
  pub in_time : now ≤ token.expires_at
  pub unused : (token.one_time_use ≡ false) ⊎ (token.used ≡ false)
  pub in_scope : InScope token.node_type req.node_type
  pub is_pinned : IsPinned p req.client_cert pinned
  pub named : name ≡ trim (get_or req.node_name "")
  pub not_blank : name ≢ ""
  pub id_is : id ≡ (type_text req.node_type ++ₛ (":" ++ₛ name))
  pub tokens_after :
      (hash : String)
      → lookup hash new.tokens ≡ (
          if p.sha256_hex presented == hash
          then some (record token { used = true })
          else lookup hash old.tokens)
  pub credentials_after :
      (node_id : String)
      → lookup node_id new.credentials ≡ (
          if id == node_id
          then some (record {
            node_id = id;
            node_name = name;
            node_type = req.node_type;
            credential_hash = p.sha256_hex credential;
            cert_fingerprint = pinned;
            revoked = false;
          })
          else lookup node_id old.credentials)

in_scope_lem : (o : Option NodeType) (type : NodeType) → scope_allows o type ≡ true → InScope o type
unfolding scope_allows
in_scope_lem none type h = tt
in_scope_lem (some scope) type h = elim (Bool-cases (type_text scope == type_text type)) [
  | inl same ↦ inl ((eq_iff {A = String} (type_text scope) (type_text type)).0 same)
  | inr apart ↦ inr ((eq_iff {A = String} (type_text scope) "").0 (ground (arith, h, apart)))
]

is_pinned_lem :
    (p : Platform) (cert pinned : Option String)
    → pin p cert ≡ value pinned
    → IsPinned p cert pinned
unfolding pin
is_pinned_lem p none pinned h = ground arith
is_pinned_lem p (some pem) pinned h = elim (Bool-cases (pem == "")) [
  | inl empty ↦ inl ((eq_iff {A = String} pem "").0 empty, ground (arith, h, empty))
  | inr given ↦ inr (by_print (p.fingerprint_of pem) refl (ground (arith, h, given)))
]
  where
    by_print :
        (o : Option String)
        → p.fingerprint_of pem ≡ o
        → ◌≡◌ {A = Result EnrollError (Option String)}
            (elim o [ none ↦ throw bad_certificate | some f ↦ value (some f) ])
            (value pinned)
        → (print : String) × (p.fingerprint_of pem ≡ some print) × (pinned ≡ some print)
    by_print none e k = cc
    by_print (some print) e k = (print, e, ground (arith, k))

presented_lem : (o : Option String) → truthy o ≡ true → o ≡ some (get_or o "")
presented_lem none h = absurd (ground arith)
presented_lem (some token) h = refl

-- A successful enrollment had a token that is known, not expired, not used up if it is for one use, and
-- for the type of the node; a name that is not blank, from which the id is made; and a certificate that
-- parses, if any. It leaves that token used and a fresh credential under the id, with the digest of the
-- secret and the fingerprint of the certificate, and every other token and credential as it was.
pub enroll-Admits :
    (p : Platform) (s : Enrollment) (now : ℕ) (req : Request) (credential id : String)
    → (enroll p s now req credential).1 ≡ value id
    → Admits p s now req credential id (enroll p s now req credential).0
unfolding grant node_id_of
enroll-Admits p s now req credential id done =
    let ran = enroll-Enrolled p s now req credential id done in
    let g = ran.granted_by in
    let hash = p.sha256_hex (get_or req.token "") in
    let c = new_credential p g.name req.node_type g.fingerprint credential in
    record {
      presented = get_or req.token "";
      token = ran.token;
      name = g.name;
      pinned = g.fingerprint;
      has_token = presented_lem req.token ran.presented;
      known = ran.known;
      in_time = ground (arith, ran.in_time);
      unused = spent ran.token.one_time_use ran.token.used ran.unused;
      in_scope = in_scope_lem ran.token.node_type req.node_type g.in_scope;
      is_pinned = is_pinned_lem p req.client_cert g.fingerprint g.pinned;
      named = g.named;
      not_blank = λ e. ground (arith, e, g.not_empty, eq_iff {A = String} g.name "");
      id_is = g.id_is;
      tokens_after = λ other.
          ap (λ n. lookup other n.tokens) g.state_is
          ∙ lookup-insert hash other (record (ran.token) { used = true }) s.tokens;
      credentials_after = λ other.
          ap (λ n. lookup other n.credentials) g.state_is
          ∙ lookup-insert (node_id_of req.node_type g.name) other c s.credentials
          ∙ ap
              (λ i.
                if i == other then some (record c { node_id = i }) else lookup other s.credentials)
              (sym g.id_is);
    }
  where
    spent :
        (one_time used : Bool) → (one_time && used) ≡ false → (one_time ≡ false) ⊎ (used ≡ false)
    spent true used h = inr (ground (arith, h))
    spent false used h = inl refl

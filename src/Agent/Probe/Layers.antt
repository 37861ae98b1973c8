-- ===== src/Agent/Probe/Layers.antt =====
-- initial-test.mjs: `initialTest`, the layers of the probe in order, and what it reads off a response.
use Prim.Native.String.{◌++◌ as ◌++ₛ◌, ◌∷◌ as ◌∷ₛ◌}
use Prim.Native.Char.{code}
use web_inspector.Prelude.{
  Bool, List, Option, String, [], false, get_or, if◌then◌else◌, leb, ltb, none, or_text, some,
  text_or, truthy, ℕ, ◌&&◌, ◌==◌, ◌||◌, ◌∷◌, Result, eqb, not, throw, true, value, string_eq,
}
use web_inspector.Prelude.Dict.{lookup}
use web_inspector.Agent.Probe.{
  Failure, Hop, failure_layer_from_reason, mentions, reason_from_error, Headers, Response, Thrown,
  fetch_with_chain, layered,
}

-- `headers.get(name)` as a test
abbrev pub sent_header : Headers → String → Bool
sent_header headers name = truthy (lookup name headers)

-- The headers of a list that are there and not empty
unfoldable pub kept_headers : Headers → List String → Headers
kept_headers headers [] = []
kept_headers headers (h ∷ hs) =
    let rest = kept_headers headers hs in
    elim (lookup h headers) [
      | none ↦ rest
      | some v ↦ if truthy (some v) then (h, v) ∷ rest else rest
    ]

unfoldable pub detect_vendor : Headers → Option String
unfolding mentions
detect_vendor headers =
    let server = get_or (lookup "server" headers) "" in
    if sent_header headers "cf-ray" || mentions server ("cloudflare" ∷ [])
    then some "Cloudflare"
    else if sent_header headers "akamai-grn"
        || sent_header headers "x-akamai-transformed"
        || mentions server ("akamai" ∷ [])
    then some "Akamai"
    else if sent_header headers "x-iinfo" || mentions server ("incapsula" ∷ "imperva" ∷ [])
    then some "Imperva"
    else if sent_header headers "x-amz-cf-id" || mentions server ("cloudfront" ∷ [])
    then some "AWS CloudFront"
    else if sent_header headers "x-served-by" || mentions server ("fastly" ∷ [])
    then some "Fastly"
    else if sent_header headers "x-vercel-id" || mentions server ("vercel" ∷ [])
    then some "Vercel"
    else if sent_header headers "x-nf-request-id" || mentions server ("netlify" ∷ [])
    then some "Netlify"
    else if mentions server ("big-ip" ∷ "bigip" ∷ "f5" ∷ [])
    then some "F5 BIG-IP"
    else none

unfoldable pub reference_ids : Headers → Headers
unfolding kept_headers
reference_ids headers = kept_headers headers (
    "cf-ray" ∷ "x-amz-cf-id" ∷ "akamai-grn" ∷ "x-served-by" ∷ "x-request-id" ∷ "x-vercel-id"
    ∷ "x-nf-request-id" ∷ [])

unfoldable pub curated_headers : Headers → Headers
unfolding kept_headers
curated_headers headers = kept_headers headers (
    "server" ∷ "content-type" ∷ "content-length" ∷ "cache-control" ∷ "cf-cache-status" ∷ "via"
    ∷ "x-cache" ∷ "location" ∷ [])

-- What `new URL` finds
pub record Url : Type 0 where
  pub protocol : String
  pub hostname : String
  pub port : Option ℕ

-- The result of `timeConnect`
pub record Connect : Type 0 where
  pub ok : Bool
  pub error : Option String

-- `out` of `initialTest`
pub record Report : Type 0 where
  pub url : String
  pub host : Option String
  pub port : Option ℕ
  pub protocol : Option String
  pub dns : Option (List String)
  pub tcp : Option Connect
  pub tls : Option Connect
  pub http : Option ℕ
  pub redirect_chain : List Hop
  pub final_url : Option String
  pub vendor : Option String
  pub reference_ids : Headers
  pub headers : Headers
  pub ok : Bool
  pub reason : String
  pub specific_reason : String
  pub failure_layer : Option String
  pub timeout_phase : Option String
  pub error : Option String

abbrev pub blank : String → Report
blank url = record {
  url = url;
  host = none;
  port = none;
  protocol = none;
  dns = none;
  tcp = none;
  tls = none;
  http = none;
  redirect_chain = [];
  final_url = none;
  vendor = none;
  reference_ids = [];
  headers = [];
  ok = false;
  reason = "UNKNOWN";
  specific_reason = "UNKNOWN";
  failure_layer = none;
  timeout_phase = none;
  error = none;
}

-- The `catch` of `initialTest`; an empty message stands for one that `String(err)` would replace.
unfoldable pub fail_with : Report → Failure → Report
fail_with out failure =
    let specific = text_or failure.specific (reason_from_error failure.message) in
    let layer = or_text failure.layer (failure_layer_from_reason specific) in
    record out {
      error = some failure.message;
      specific_reason = specific;
      reason = specific;
      failure_layer = layer;
      timeout_phase =
          if specific == "TIMEOUT" then some (text_or layer "http") else out.timeout_phase;
      ok = false;
    }

abbrev pub is_ok_status : ℕ → Bool
is_ok_status n = leb 200 n && ltb n 400

-- `text.replace(":", "")`
unfoldable pub drop_colon : String → String
drop_colon String.[] = ""
drop_colon (String.◌∷◌ c s) = let rest = drop_colon s in if eqb (code c) 58 then s else c ∷ₛ rest

abbrev pub is_secure : Url → Bool
is_secure u = u.protocol == "https:"

abbrev pub port_of : Url → ℕ
port_of u = get_or u.port (if is_secure u then 443 else 80)

-- The network: `new URL`, `dns.lookup` with the message of what it throws, `timeConnect`, `fetch` and
-- the URL of a location; `show` is how JavaScript writes a number.
pub record Network : Type 0 where
  pub show : ℕ → String
  pub new_url : String → Option Url
  pub dns_lookup : String → Result String (List String)
  pub time_connect : String → ℕ → Bool → Connect
  pub fetch : String → Result Thrown Response
  pub resolve : String → String → Result Thrown String

module _ (net : Network) where
  unfoldable pub safe_parse : String → Option Url
  safe_parse url = elim (net.new_url url) [
    | none ↦ none
    | some u ↦ if u.protocol == "http:" || u.protocol == "https:" then some u else none
  ]

  -- The end of the `try`, with the response
  unfoldable pub read_response : Report → Response → Report
  read_response out response =
      let ok = is_ok_status response.status in
      let reason = if ok then "OK" else "HTTP_" ++ₛ net.show response.status in
      record out {
        http = some response.status;
        vendor = detect_vendor response.headers;
        reference_ids = reference_ids response.headers;
        headers = curated_headers response.headers;
        ok = ok;
        reason = reason;
        specific_reason = reason;
      }

  abbrev pub after_fetch : Report → Option String → Option Response → Report
  after_fetch out error none = fail_with out (layered "http" (text_or error "NETWORK_FAILURE"))
  after_fetch out error (some response) = read_response out response

  unfoldable pub http_layer : Report → String → Report
  http_layer out url =
      let fetched = fetch_with_chain net.fetch net.resolve url in
      after_fetch
        (record out { redirect_chain = fetched.redirect_chain; final_url = some fetched.final_url })
        fetched.error fetched.response

  unfoldable pub tls_layer : Report → String → Url → Report
  tls_layer out url u =
      let tls = net.time_connect u.hostname (port_of u) true in
      let done = record out { tls = some tls } in
      if is_secure u
      then (if not tls.ok
          then fail_with done (layered "tls" (text_or tls.error "TLS_FAILURE"))
          else http_layer done url)
      else http_layer out url

  unfoldable pub tcp_layer : Report → String → Url → Report
  tcp_layer out url u =
      let tcp = net.time_connect u.hostname (port_of u) false in
      let done = record out { tcp = some tcp } in
      if not tcp.ok
      then fail_with done (layered "tcp" (text_or tcp.error "TCP_FAILURE"))
      else tls_layer done url u

  abbrev pub after_lookup : Report → String → Url → Result String (List String) → Report
  after_lookup out url u (throw message) =
      fail_with out (record { message = message; layer = none; specific = none })
  after_lookup out url u (value addresses) = tcp_layer (record out { dns = some addresses }) url u

  abbrev pub after_parse : String → Option Url → Report
  after_parse url none = record (blank url) { error = some "invalid URL" }
  after_parse url (some u) =
      let out = record (blank url) {
        host = some u.hostname;
        port = some (port_of u);
        protocol = some (drop_colon u.protocol);
      } in
      after_lookup out url u (net.dns_lookup u.hostname)

  unfoldable pub initial_test : String → Report
  initial_test url = after_parse url (safe_parse url)

-- ===== src/Agent/Probe.antt =====
-- agent/probe/initial-test.mjs: the layered probe of a URL. The network is a parameter: what the
-- lookup, the connects and the fetches answer. Timings, the body and the header lists are left out.
pub mod Redirects
pub mod Layers
pub mod Verdict
mod Tests
use web_inspector.Prelude.{
  Bool, List, Option, Result, String, [], eqb, exists, get_or, if◌then◌else◌, none, some, throw,
  truthy, value, ℕ, ◌&&◌, ◌==◌, ◌||◌, ◌∷◌, or_text, suc, text_or, zero, string_eq,
}
use web_inspector.Prelude.Dict.{Dict, lookup}
use web_inspector.Prelude.Text.{includes_ci}

-- The statuses of `REDIRECT_STATUSES`
abbrev pub is_redirect : ℕ → Bool
is_redirect n = eqb n 301 || eqb n 302 || eqb n 303 || eqb n 307 || eqb n 308

abbrev pub Headers : Type 0
Headers = Dict String String

pub record Response : Type 0 where
  pub status : ℕ
  pub headers : Headers

-- `response.headers.get("location")`
abbrev pub location : Response → Option String
location response = lookup "location" response.headers

pub record Hop : Type 0 where
  pub from : String
  pub to : String
  pub status : ℕ

pub record Fetched : Type 0 where
  pub response : Option Response
  pub final_url : String
  pub redirect_chain : List Hop
  pub error : Option String

-- `/a|b|…/i.test(text)` of plain alternatives
unfoldable pub mentions : String → List String → Bool
mentions text parts = exists (λ part. includes_ci text part) parts

unfoldable pub reason_from_error : String → String
unfolding mentions
reason_from_error error =
    if mentions error ("ENOTFOUND" ∷ "EAI_AGAIN" ∷ "DNS" ∷ "ERR_NAME" ∷ [])
    then "DNS_FAILURE"
    else if mentions error ("CERT" ∷ "SSL" ∷ "TLS" ∷ "UNABLE_TO_VERIFY" ∷ "ERR_TLS" ∷ [])
    then "TLS_FAILURE"
    else if mentions error ("TIMEOUT" ∷ "ABORT" ∷ [])
    then "TIMEOUT"
    else if mentions error
        ("ECONN" ∷ "TCP" ∷ "RESET" ∷ "REFUSED" ∷ "EHOSTUNREACH" ∷ "ENETUNREACH" ∷ [])
    then "TCP_FAILURE"
    else "NETWORK_FAILURE"

unfoldable pub failure_layer_from_reason : String → Option String
failure_layer_from_reason reason =
    if reason == "DNS_FAILURE"
    then some "dns"
    else if reason == "TCP_FAILURE"
    then some "tcp"
    else if reason == "TLS_FAILURE"
    then some "tls"
    else if reason == "TIMEOUT"
    then some "timeout"
    else none

-- An error: its message, and the layer and the reason that `layered` put on it.
pub record Failure : Type 0 where
  pub message : String
  pub layer : Option String
  pub specific : Option String

unfoldable pub layered : String → String → Failure
layered layer message = record {
  message = message;
  layer = some layer;
  specific = some (
      if layer == "tcp"
      then "TCP_FAILURE"
      else if layer == "tls"
      then "TLS_FAILURE"
      else if includes_ci message "TIMEOUT"
      then "TIMEOUT"
      else reason_from_error message);
}

-- What `fetch` and the constructor of `URL` throw.
pub record Thrown : Type 0 where
  pub is_abort : Bool
  pub cause_code : Option String
  pub code : Option String
  pub message : Option String

-- The text that the `catch` of `fetchWithChain` makes of it
unfoldable pub error_text : Thrown → String
error_text e =
    if e.is_abort || includes_ci (get_or e.message "undefined") "TIMEOUT"
    then "TIMEOUT"
    else text_or (or_text e.cause_code (or_text e.code e.message)) "NETWORK_FAILURE"

-- How a round of the loop ends.
pub data Turn : Type 0 where
  arrived : Response → Turn
  redirected : Hop → Turn
  broken : (error : String) → Turn

-- What follows a round, given what the rounds after a redirect find.
abbrev pub after_turn : (String → Fetched) → String → Turn → Fetched
after_turn next current (arrived response) = record {
  response = some response;
  final_url = current;
  redirect_chain = [];
  error = none;
}
after_turn next current (redirected hop) =
    let rest = next hop.to in record rest { redirect_chain = hop ∷ rest.redirect_chain }
after_turn next current (broken error) = record {
  response = none;
  final_url = current;
  redirect_chain = [];
  error = some error;
}

module _ (fetch : String → Result Thrown Response)
    (resolve : String → String → Result Thrown String) where
  -- The body of the loop for a response
  abbrev pub turn_of : String → Result Thrown Response → Turn
  turn_of current (throw e) = broken (error_text e)
  turn_of current (value response) =
      if is_redirect response.status && truthy (location response)
      then elim (resolve (get_or (location response) "") current) [
        | throw e ↦ broken (error_text e)
        | value next ↦ redirected (record { from = current; to = next; status = response.status })
      ]
      else arrived response

  -- The loop, with the number of rounds that are left
  unfoldable pub follow : ℕ → String → Fetched
  follow zero current = record {
    response = none;
    final_url = current;
    redirect_chain = [];
    error = some "TOO_MANY_REDIRECTS";
  }
  follow (suc n) current = after_turn (follow n) current (turn_of current (fetch current))

  -- `fetchWithChain(target)`: `maxRedirects` is 10, and the loop has one round more.
  unfoldable pub fetch_with_chain : String → Fetched
  fetch_with_chain target = follow 11 target

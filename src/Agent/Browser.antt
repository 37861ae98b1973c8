-- ===== src/Agent/Browser.antt =====
-- agent/browser/browser-validation.mjs: the decisions on a page that a browser has loaded.
-- `status` is the status of the response, where there is one. The texts of a page are lower-cased by
-- comparing without ASCII case.
pub mod Evidence
pub mod Verdict
pub mod Validate
mod Tests
use Prim.Native.String.{◌++◌ as ◌++ₛ◌, ◌∷◌ as ◌∷ₛ◌}
use Prim.Native.Char.{Char, code}
use web_inspector.Prelude.{
  Bool, List, Option, String, [], eqb, false, get_or, if◌then◌else◌, leb, none, not, some, text_or,
  true, truthy, ℕ, ◌&&◌, ◌||◌, ◌∷◌, string_eq,
}
use web_inspector.Prelude.Text.{is_space, starts_with_ci, drop_chars}
use web_inspector.Prelude.Dict.{lookup}
use web_inspector.Agent.Probe.{mentions, Headers}
use web_inspector.Agent.Probe.Layers.{blank, sent_header}

pub data PageClass : Type 0 where
  user_visible_ok challenge_or_block http_error network_failure timeout browser_error : PageClass

pub record Outcome : Type 0 where
  pub ok : Bool
  pub page_classification : PageClass
  pub specific_reason : String

abbrev pub outcome : Bool → PageClass → String → Outcome
outcome ok page_classification specific_reason = record {
  ok = ok;
  page_classification = page_classification;
  specific_reason = specific_reason;
}

pub record Challenge : Type 0 where
  pub is_challenge : Bool
  pub vendor : Option String
  pub reason : Option String
  pub signals : List String

-- A character of `\w`
unfoldable pub is_word : Char → Bool
is_word c =
    let n = code c in
    leb 48 n && leb n 57 || leb 65 n && leb n 90 || leb 97 n && leb n 122 || eqb n 95

abbrev pub is_digit : Char → Bool
is_digit c = leb 48 (code c) && leb (code c) 57

-- A string starts with a character that `p` takes.
abbrev pub heads : (Char → Bool) → String → Bool
heads p String.[] = false
heads p (String.◌∷◌ c s) = p c

-- `/\bDNS\b/i.test(s)`; `inside` says whether the character before is one of `\w`.
unfoldable pub has_dns : Bool → String → Bool
unfolding starts_with_ci is_word drop_chars
has_dns inside String.[] = false
has_dns inside (String.◌∷◌ c s) =
    not inside && starts_with_ci (c ∷ₛ s) "DNS" && not (heads is_word (drop_chars 3 (c ∷ₛ s)))
    || has_dns (is_word c) s

-- `/reference\s*#\s*\d/i.test(s)`, from the place after `reference`: `marked` once the `#` is read
unfoldable pub numbered : Bool → String → Bool
unfolding is_space
numbered marked String.[] = false
numbered marked (String.◌∷◌ c s) =
    let blank = numbered marked s in
    let mark = numbered true s in
    if is_space c
    then blank
    else if marked
    then is_digit c
    else if eqb (code c) 35
    then mark
    else false

unfoldable pub has_reference : String → Bool
unfolding starts_with_ci drop_chars numbered
has_reference String.[] = false
has_reference (String.◌∷◌ c s) =
    starts_with_ci (c ∷ₛ s) "reference" && numbered false (drop_chars 9 (c ∷ₛ s)) || has_reference s

unfoldable pub map_network_error : String → String
unfolding mentions has_dns
map_network_error v =
    if mentions v ("ERR_NAME_NOT_RESOLVED" ∷ "ENOTFOUND" ∷ "EAI_AGAIN" ∷ []) || has_dns false v
    then "DNS_FAILURE"
    else if mentions v ("ERR_CERT" ∷ "ERR_SSL" ∷ "ERR_TLS" ∷ "CERT_" ∷ "SSL_" ∷ "handshake" ∷ [])
    then "TLS_FAILURE"
    else if mentions v ("ERR_TIMED_OUT" ∷ "TIMEOUT" ∷ "TIMEDOUT" ∷ "ABORT" ∷ [])
    then "TIMEOUT"
    else if mentions v (
        "ERR_CONNECTION_REFUSED" ∷ "ECONNREFUSED" ∷ "ERR_CONNECTION_RESET" ∷ "ECONNRESET"
        ∷ "ERR_CONNECTION_CLOSED" ∷ "ERR_CONNECTION_FAILED" ∷ "ERR_ADDRESS_UNREACHABLE"
        ∷ "EHOSTUNREACH" ∷ "ENETUNREACH" ∷ [])
    then "TCP_FAILURE"
    else "NETWORK_FAILURE"

abbrev pub is_absent : Option ℕ → Bool
is_absent none = true
is_absent (some n) = false

-- `status === n`
abbrev pub status_is : ℕ → Option ℕ → Bool
status_is n none = false
status_is n (some m) = eqb m n

-- A block page of which `detectChallenge` finds the signs: its vendor, its reason and its signal.
abbrev pub found : Option String → String → String → Challenge
found vendor reason signal = record {
  is_challenge = true;
  vendor = vendor;
  reason = some reason;
  signals = signal ∷ [];
}

abbrev pub no_challenge : Challenge
no_challenge = record { is_challenge = false; vendor = none; reason = none; signals = [] }

-- The signs of each vendor's page in the text `hay` and the headers
unfoldable pub is_cloudflare : String → Headers → Bool
unfolding mentions
is_cloudflare hay h =
    sent_header h "cf-mitigated"
    || mentions hay (
        "just a moment" ∷ "attention required" ∷ "checking your browser" ∷ "cf-browser-verification"
        ∷ "challenge-platform" ∷ "enable javascript and cookies to continue" ∷ [])

unfoldable pub is_captcha : String → Bool
unfolding mentions
is_captcha hay =
    mentions hay
      ("captcha" ∷ "verify you are a human" ∷ "verify you are human" ∷ "are you a robot" ∷ [])

unfoldable pub is_akamai : Option ℕ → String → Headers → Bool
unfolding mentions has_reference
is_akamai status hay h =
    let server = get_or (lookup "server" h) "" in
    let akamai_edge = mentions server ("akamaighost" ∷ []) || sent_header h "akamai-grn" in
    mentions hay ("access denied" ∷ [])
    || has_reference hay
    || mentions hay ("you don't have permission to access" ∷ [])
    || akamai_edge && (status_is 403 status || mentions hay ("denied" ∷ "forbidden" ∷ []))

unfoldable pub is_imperva : String → Headers → Bool
unfolding mentions
is_imperva hay h =
    mentions hay (
      "incapsula incident" ∷ "_incap_" ∷ "request unsuccessful. incapsula" ∷ "powered by imperva"
      ∷ [])
    || sent_header h "x-iinfo"

unfoldable pub is_perimeterx : String → Bool
unfolding mentions
is_perimeterx hay =
    mentions hay (
      "px-captcha" ∷ "perimeterx" ∷ "please verify you are a human" ∷ "press & hold to confirm"
      ∷ [])

unfoldable pub is_datadome : String → Headers → Bool
unfolding mentions
is_datadome hay h =
    mentions hay ("datadome" ∷ []) || sent_header h "x-datadome" || sent_header h "x-dd-b"

unfoldable pub is_generic_block : Option ℕ → String → Bool
unfolding mentions
is_generic_block status hay =
    (status_is 403 status || status_is 429 status || status_is 503 status)
    && mentions hay (
        "access denied" ∷ "request blocked" ∷ "forbidden" ∷ "bot detected" ∷ "are you a robot"
        ∷ "unusual traffic" ∷ "captcha" ∷ [])

unfoldable pub detect_challenge : Option ℕ → String → String → Headers → Challenge
detect_challenge status title body h =
    let hay = title ++ₛ ("\n" ++ₛ body) in
    if is_cloudflare hay h
    then found (some "Cloudflare") (if is_captcha hay then "CAPTCHA" else "CLOUDFLARE_CHALLENGE")
        "cloudflare_challenge"
    else if is_akamai status hay h
    then found (some "Akamai") "AKAMAI_BLOCK" "akamai_block"
    else if is_imperva hay h
    then found (some "Imperva") "IMPERVA_BLOCK" "incapsula_incident"
    else if is_perimeterx hay
    then found (some "PerimeterX") "PX_BLOCK" "perimeterx"
    else if is_datadome hay h
    then found (some "DataDome") "DATADOME_BLOCK" "datadome"
    else if is_generic_block status hay
    then found none "WAF_BLOCK" "generic_waf_block"
    else no_challenge

unfoldable pub classify_outcome :
    (ℕ → String) → Option ℕ → Option String → Bool → Challenge → Outcome
unfolding map_network_error
classify_outcome show status nav_error timed_out challenge =
    if timed_out
    then outcome false timeout "TIMEOUT"
    else if truthy nav_error && is_absent status
    then outcome false network_failure (map_network_error (get_or nav_error ""))
    else if challenge.is_challenge
    then outcome false challenge_or_block (text_or challenge.reason "WAF_BLOCK")
    else elim status [
      | none ↦ outcome false browser_error "UNKNOWN"
      | some n ↦
          if leb 400 n
          then outcome false http_error ("HTTP_" ++ₛ show n)
          else outcome true user_visible_ok "OK"
    ]

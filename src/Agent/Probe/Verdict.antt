-- ===== src/Agent/Probe/Verdict.antt =====
-- initial-test.mjs: when a probe reports that a URL is well.
use web_inspector.Prelude.{
  Bool, List, Option, Result, String, false, none, not, refl, some, throw, true, value, ◌&&◌, ◌||◌,
  ◌≡◌, arith, if_cases, sym, ◌∙◌,
}
use web_inspector.Agent.Probe.{Response, fetch_with_chain}
use web_inspector.Agent.Probe.Layers.{
  Report, Url, after_fetch, fail_with, http_layer, initial_test, is_ok_status, is_secure, port_of,
  read_response, safe_parse, tcp_layer, tls_layer, Network, after_lookup, after_parse, blank,
  drop_colon,
}

abbrev pub is_value : {E A : Type 0} → Result E A → Bool
is_value (value a) = true
is_value (throw e) = false

abbrev pub is_good : Option Response → Bool
is_good none = false
is_good (some response) = is_ok_status response.status

module _ (net : Network) where
  -- The TLS layer, where there is one, and the response.
  abbrev pub upper_pass : String → Url → Bool
  upper_pass url u =
      (not (is_secure u) || (net.time_connect u.hostname (port_of u) true).ok)
      && is_good (fetch_with_chain net.fetch net.resolve url).response

  -- Every layer of a URL answers.
  abbrev pub passes : String → Option Url → Bool
  passes url none = false
  passes url (some u) =
      is_value (net.dns_lookup u.hostname)
      && (net.time_connect u.hostname (port_of u) false).ok
      && upper_pass url u

  http_ok :
      (out : Report) (url : String)
      → (http_layer net out url).ok ≡ is_good (fetch_with_chain net.fetch net.resolve url).response
  unfolding http_layer fail_with read_response
  http_ok out url =
      let fetched = fetch_with_chain net.fetch net.resolve url in
      by_response
        (record out { redirect_chain = fetched.redirect_chain; final_url = some fetched.final_url })
        fetched.error fetched.response
    where
      by_response :
          (out : Report) (error : Option String) (r : Option Response)
          → (after_fetch net out error r).ok ≡ is_good r
      by_response out error none = refl
      by_response out error (some response) = refl

  tls_ok : (out : Report) (url : String) (u : Url) → (tls_layer net out url u).ok ≡ upper_pass url u
  unfolding tls_layer fail_with
  tls_ok out url u =
      let tls = net.time_connect u.hostname (port_of u) true in
      let Ends : Report → Type 0 = λ r. r.ok ≡ upper_pass url u in
      if_cases Ends (is_secure u)
        (λ secure.
          if_cases Ends (not tls.ok) (λ down. ground (arith, secure, down))
            (λ up. http_ok (record out { tls = some tls }) url ∙ sym (ground (arith, secure, up))))
        (λ plain. http_ok out url ∙ sym (ground (arith, plain)))

  tcp_ok :
      (out : Report) (url : String) (u : Url)
      → (tcp_layer net out url u).ok
        ≡ ((net.time_connect u.hostname (port_of u) false).ok && upper_pass url u)
  unfolding tcp_layer fail_with
  tcp_ok out url u =
      let tcp = net.time_connect u.hostname (port_of u) false in
      if_cases (λ (r : Report). r.ok ≡ (tcp.ok && upper_pass url u)) (not tcp.ok)
        (λ down. ground (arith, down))
        (λ up. tls_ok (record out { tcp = some tcp }) url u ∙ sym (ground (arith, up)))

  -- A probe is well exactly if the URL parses with a protocol of the web and each layer passes: the
  -- lookup, the TCP connect, the TLS connect where the protocol is https, and a response, after the
  -- redirects, with a status of 200 to 399.
  pub initial_test-passes :
      (url : String) → (initial_test net url).ok ≡ passes url (safe_parse net url)
  unfolding initial_test fail_with
  initial_test-passes url = by_parse (safe_parse net url)
    where
      by_lookup :
          (out : Report) (u : Url) (r : Result String (List String))
          → (after_lookup net out url u r).ok
            ≡ (is_value r && (net.time_connect u.hostname (port_of u) false).ok && upper_pass url u)
      by_lookup out u (throw message) = refl
      by_lookup out u (value addresses) = tcp_ok (record out { dns = some addresses }) url u

      by_parse : (o : Option Url) → (after_parse net url o).ok ≡ passes url o
      by_parse none = refl
      by_parse (some u) =
          by_lookup
            (record (blank url) {
              host = some u.hostname;
              port = some (port_of u);
              protocol = some (drop_colon u.protocol);
            })
            u (net.dns_lookup u.hostname)

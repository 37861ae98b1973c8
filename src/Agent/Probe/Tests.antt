-- ===== src/Agent/Probe/Tests.antt =====
-- initial-test.mjs: the probe on a small network.
use web_inspector.Prelude.Text.{includes_ci}
use web_inspector.Prelude.Dict.{lookup}
use web_inspector.Prelude.{
  Result, String, [], eqb, false, if◌then◌else◌, none, refl, some, throw, value, ◌==◌, ◌∷◌, ◌≡◌,
  string_eq,
}
use web_inspector.Agent.Probe.{
  Response, Thrown, fetch_with_chain, follow, layered, location, mentions, reason_from_error,
}
use web_inspector.Agent.Probe.Redirects.{Follows, fetch_with_chain-Follows}
use web_inspector.Agent.Probe.Layers.{
  Network, detect_vendor, fail_with, http_layer, initial_test, read_response, safe_parse, tcp_layer,
  tls_layer,
}
use web_inspector.Agent.Probe.Verdict.{initial_test-passes, passes}

abbrev test_fetch : String → Result Thrown Response
test_fetch url =
    if url == "https://a.test/"
    then value (record { status = 301; headers = ("location", "/home") ∷ [] })
    else if url == "https://a.test/home"
    then value (record { status = 200; headers = ("cf-ray", "7f") ∷ [] })
    else throw (record {
      is_abort = false;
      cause_code = some "ECONNRESET";
      code = none;
      message = some "fetch failed";
    })

abbrev test_resolve : String → String → Result Thrown String
test_resolve location base =
    if location == "/home"
    then value "https://a.test/home"
    else throw (record {
      is_abort = false;
      cause_code = none;
      code = some "ERR_INVALID_URL";
      message = none;
    })

abbrev test_net : Network
test_net = record {
  show = λ n. "200";
  new_url = λ url. some (record { protocol = "https:"; hostname = "a.test"; port = none });
  dns_lookup = λ host. value ("10.0.0.1" ∷ []);
  time_connect = λ host port secure. record { ok = eqb port 443; error = none };
  fetch = test_fetch;
  resolve = test_resolve;
}

test_final_url : (initial_test test_net "https://a.test/").final_url ≡ some "https://a.test/home"
unfolding initial_test safe_parse tcp_layer tls_layer http_layer read_response fetch_with_chain
    follow lookup
test_final_url = refl

test_vendor : (initial_test test_net "https://a.test/").vendor ≡ some "Cloudflare"
unfolding initial_test safe_parse tcp_layer tls_layer http_layer read_response fetch_with_chain
    follow detect_vendor lookup
test_vendor = refl

test_reset : (initial_test test_net "https://b.test/").failure_layer ≡ some "http"
unfolding initial_test safe_parse tcp_layer tls_layer http_layer fail_with fetch_with_chain follow
    layered lookup
test_reset = refl

test_reason : reason_from_error "getaddrinfo ENOTFOUND a.test" ≡ "DNS_FAILURE"
unfolding reason_from_error mentions includes_ci
test_reason = refl

fetch_with_chain-Follows_example :
    Follows test_fetch test_resolve 11 "https://a.test/"
      (fetch_with_chain test_fetch test_resolve "https://a.test/")
fetch_with_chain-Follows_example =
    fetch_with_chain-Follows test_fetch test_resolve "https://a.test/"

initial_test-passes_example :
    (initial_test test_net "https://a.test/").ok
    ≡ passes test_net "https://a.test/" (safe_parse test_net "https://a.test/")
initial_test-passes_example = initial_test-passes test_net "https://a.test/"

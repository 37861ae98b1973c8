-- ===== src/Agent/Browser/Tests.antt =====
-- browser-validation.mjs: the verdicts on concrete pages.
use web_inspector.Prelude.{
  [], false, none, refl, some, true, ◌∷◌, ◌≡◌, if◌then◌else◌, value, ℕ, ◌++◌, string_eq,
}
use web_inspector.Prelude.Text.{includes_ci, is_space, starts_with_ci, trim_start, drop_chars}
use web_inspector.Prelude.Dict.{insert, lookup}
use web_inspector.Agent.Probe.{mentions}
use web_inspector.Agent.Probe.Layers.{kept_headers}
use web_inspector.Agent.Browser.{
  classify_outcome, detect_challenge, found, has_dns, has_reference, is_word, map_network_error,
  numbered, is_akamai, is_captcha, is_cloudflare, is_datadome, is_generic_block, is_imperva,
  is_perimeterx,
}
use web_inspector.Agent.Browser.Evidence.{
  abck_state, after_ci, capture_word, count_chars, extract_reference_ids, first_match, passed,
  read_akamai, read_incapsula, read_ray, split_at, take_while,
}
use web_inspector.Agent.Browser.Validate.{
  Page, as_list, collapse, is_loaded, validate_page, validate_page-Loaded,
}
use web_inspector.Agent.Browser.Verdict.{is_visible}

test_cloudflare :
    detect_challenge (some 503) "Just a moment..." "" []
    ≡ found (some "Cloudflare") "CLOUDFLARE_CHALLENGE" "cloudflare_challenge"
unfolding detect_challenge is_cloudflare is_captcha is_akamai is_imperva is_perimeterx is_datadome
    is_generic_block mentions includes_ci starts_with_ci lookup
test_cloudflare = refl

test_healthy :
    (detect_challenge (some 200) "Home" "welcome" (("cf-ray", "7f") ∷ [])).is_challenge ≡ false
unfolding detect_challenge is_cloudflare is_captcha is_akamai is_imperva is_perimeterx is_datadome
    is_generic_block mentions includes_ci starts_with_ci has_reference numbered lookup
test_healthy = refl

test_reference : has_reference "Access; Reference # 18.ab" ≡ true
unfolding has_reference numbered starts_with_ci drop_chars is_space
test_reference = refl

test_dns : map_network_error "my DNS is down" ≡ "DNS_FAILURE"
unfolding map_network_error mentions includes_ci starts_with_ci has_dns is_word drop_chars
test_dns = refl

test_no_dns : map_network_error "adnsx" ≡ "NETWORK_FAILURE"
unfolding map_network_error mentions includes_ci starts_with_ci has_dns is_word drop_chars
test_no_dns = refl

test_passed : (abck_state (("_abck", "AB~0~CD") ∷ [])).verdict ≡ passed
unfolding abck_state split_at
test_passed = refl

test_ids :
    extract_reference_ids [] "Incapsula incident ID: 12-3a. Reference #18.ab! Ray ID: 7fA0z"
    ≡ ("akamaiReference", "18.ab")
      ∷ ("incapsulaIncident", "12-3a")
      ∷ ("cloudflareRayId", "7fA0")
      ∷ []
unfolding extract_reference_ids kept_headers first_match read_akamai read_incapsula read_ray
    after_ci starts_with_ci drop_chars count_chars take_while capture_word trim_start is_space
    is_word insert lookup
test_ids = refl

abbrev blocked_page : Page ℕ
blocked_page = record {
  goto = value (some (503, ("cf-ray", "7f") ∷ []));
  page_url = some "https://a.test/";
  title = "Just a moment...";
  body_text = "wait   a bit";
  cookies = [];
  console_lines = [];
  failed_requests = [];
  responses = [];
  screenshot = some 1;
  har = some 2;
}

test_artifacts :
    (validate_page (λ n. "503") (λ l base. none) "https://a.test" blocked_page).artifacts
    ≡ 1 ∷ 2 ∷ []
unfolding validate_page classify_outcome detect_challenge is_cloudflare is_captcha mentions
    includes_ci starts_with_ci lookup
test_artifacts = refl

test_sample : collapse false "wait \n a  bit" ≡ "wait a bit"
unfolding collapse is_space
test_sample = refl

validate_page-Loaded_example :
    let v = validate_page (λ n. "503") (λ l base. none) "https://a.test" blocked_page in
    let loaded = is_loaded (λ n. "503") (λ l base. none) blocked_page in
    (v.ok ≡ loaded)
    × (v.artifacts ≡ as_list (some 1) ++ (if loaded then [] else as_list (some 2)))
    × (is_visible v.page_classification ≡ loaded)
validate_page-Loaded_example =
    validate_page-Loaded (λ n. "503") (λ l base. none) "https://a.test" blocked_page

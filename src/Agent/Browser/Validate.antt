-- ===== src/Agent/Browser/Validate.antt =====
-- browser-validation.mjs: `browserValidate`, from what the browser gathered for a page to the result. The
-- names of the headers that a browser answers are in lower case; an artifact is described by `A`.
use Prim.Native.String.{◌∷◌ as ◌∷ₛ◌}
use web_inspector.Prelude.{
  Bool, List, Option, Result, String, [], ap, false, filter_by, get_or, if◌then◌else◌, leb, ltb,
  map, none, not, or_text, some, take, text_or, throw, true, truthy, value, ℕ, ◌&&◌, ◌++◌, ◌∙◌, ◌∷◌,
  ◌≡◌,
}
use web_inspector.Prelude.Text.{includes_ci, is_space, trim}
use web_inspector.Agent.Probe.{Headers}
use web_inspector.Agent.Browser.{Outcome, PageClass, classify_outcome, detect_challenge}
use web_inspector.Agent.Browser.Evidence.{
  Abck, abck_state, analyze_headers, extract_reference_ids, truncate,
}
use web_inspector.Agent.Browser.Verdict.{classify_outcome-Shown, is_shown, is_visible}

-- A response that the page saw
pub record Seen : Type 0 where
  pub url : String
  pub status : ℕ
  pub location : Option String

pub record Redirect : Type 0 where
  pub from : String
  pub to : Option String
  pub status : ℕ

-- What the browser gathered; `goto` is the response of the navigation, where it has one, or its error.
pub record Page (A : Type 0) : Type 0 where
  pub goto : Result String (Option (ℕ × Headers))
  pub page_url : Option String
  pub title : String
  pub body_text : String
  pub cookies : List (String × String)
  pub console_lines : List (String × String)
  pub failed_requests : List (String × Option String)
  pub responses : List Seen
  pub screenshot : Option A
  pub har : Option A

pub record PageEvidence : Type 0 where
  pub final_url : String
  pub title : String
  pub status : Option ℕ
  pub vendor : Option String
  pub reference_ids : Headers
  pub abck : Abck
  pub redirect_chain : List Redirect
  pub challenge_signals : List String
  pub headers : Headers
  pub console_sample : List (String × String)
  pub network_failures : List (String × String)
  pub body_sample : String
  pub nav_error : Option String

pub record Validation (A : Type 0) : Type 0 where
  pub ok : Bool
  pub specific_reason : String
  pub page_classification : PageClass
  pub evidence : PageEvidence
  pub artifacts : List A

-- `text.replace(/\s+/g, " ")`; `inside` says whether the character before was white space.
unfoldable pub collapse : Bool → String → String
unfolding is_space
collapse inside String.[] = ""
collapse inside (String.◌∷◌ c s) =
    let more = collapse true s in
    let next = collapse false s in
    if is_space c then (if inside then more else " " ∷ₛ more) else c ∷ₛ next

-- `status`, the headers and `navError` of a navigation
abbrev pub status_of : Result String (Option (ℕ × Headers)) → Option ℕ
status_of (value (some (status, headers))) = some status
status_of (value none) = none
status_of (throw e) = none

abbrev pub headers_of : Result String (Option (ℕ × Headers)) → Headers
headers_of (value (some (status, headers))) = headers
headers_of (value none) = []
headers_of (throw e) = []

abbrev pub error_of : Result String (Option (ℕ × Headers)) → Option String
error_of (value response) = none
error_of (throw e) = some e

abbrev pub is_timeout : Option String → Bool
is_timeout none = false
is_timeout (some e) = includes_ci e "timeout"

abbrev pub as_list : {A : Type 0} → Option A → List A
as_list none = []
as_list (some a) = a ∷ []

-- The headers of the response, in `redirectChain`; `resolve` is `safeResolve`'s `new URL`.
abbrev pub redirect_of : (String → String → Option String) → Seen → Redirect
redirect_of resolve r = record {
  from = r.url;
  to =
      if truthy r.location
      then some (get_or (resolve (get_or r.location "") r.url) (get_or r.location ""))
      else none;
  status = r.status;
}

module _ {A : Type 0} (show : ℕ → String) (resolve : String → String → Option String) where
  abbrev pub outcome_of : Page A → Outcome
  outcome_of page =
      let status = status_of page.goto in
      let nav_error = error_of page.goto in
      classify_outcome show status nav_error (is_timeout nav_error)
        (detect_challenge status page.title page.body_text (headers_of page.goto))

  unfoldable pub gather_evidence : String → Page A → PageEvidence
  unfolding truncate
  gather_evidence url page =
      let headers = headers_of page.goto in
      let (vendor, curated) = analyze_headers headers in
      let challenge = detect_challenge (status_of page.goto) page.title page.body_text headers in
      record {
        final_url = text_or page.page_url url;
        title = truncate page.title 300;
        status = status_of page.goto;
        vendor = or_text challenge.vendor vendor;
        reference_ids = extract_reference_ids headers page.body_text;
        abck = abck_state page.cookies;
        redirect_chain =
            map (redirect_of resolve)
              (filter_by (λ (r : Seen). leb 300 r.status && ltb r.status 400) page.responses);
        challenge_signals = challenge.signals;
        headers = curated;
        console_sample = map (λ c. (c.0, truncate c.1 300)) (take 50 page.console_lines);
        network_failures = map (λ f. (f.0, text_or f.1 "failed")) (take 50 page.failed_requests);
        body_sample = truncate (trim (collapse false page.body_text)) 600;
        nav_error = error_of page.goto;
      }

  -- The HAR is kept if `shouldKeepHar(outcome.ok)`.
  unfoldable pub validate_page : String → Page A → Validation A
  validate_page url page =
      let o = outcome_of page in
      record {
        ok = o.ok;
        specific_reason = o.specific_reason;
        page_classification = o.page_classification;
        evidence = gather_evidence url page;
        artifacts = as_list page.screenshot ++ (if o.ok then [] else as_list page.har);
      }

  -- A page that the browser loaded
  abbrev pub is_loaded : Page A → Bool
  is_loaded page =
      not (is_timeout (error_of page.goto))
      && not
          (detect_challenge (status_of page.goto) page.title page.body_text
            (headers_of page.goto)).is_challenge
      && is_shown (status_of page.goto)

  -- A validation is well exactly if the navigation did not time out, no challenge was found on the page and
  -- its status is below 400; it then has the screenshot alone, and otherwise the HAR as well, as far as
  -- each could be taken, and it is classified as visible exactly if it is well.
  pub validate_page-Loaded :
      (url : String) (page : Page A)
      → let v = validate_page url page in
        (v.ok ≡ is_loaded page)
        × (v.artifacts
            ≡ as_list page.screenshot ++ (if is_loaded page then [] else as_list page.har))
        × (is_visible v.page_classification ≡ is_loaded page)
  unfolding validate_page
  validate_page-Loaded url page =
      let status = status_of page.goto in
      let nav_error = error_of page.goto in
      let (well, visible) =
        classify_outcome-Shown show status nav_error (is_timeout nav_error)
          (detect_challenge status page.title page.body_text (headers_of page.goto)) in
      (
        well,
        ap (λ b. as_list page.screenshot ++ (if b then [] else as_list page.har)) well,
        visible ∙ well,
      )

-- ===== src/Agent/Browser/Verdict.antt =====
-- browser-validation.mjs: what a verdict means.
use Prim.Native.String.{◌++◌ as ◌++ₛ◌}
use web_inspector.Prelude.{
  Bool, Option, String, [], arith, false, if_cases, leb, length, ltb, none, not, refl, some, true,
  truthy, ℕ, ◌&&◌, ◌≡◌, if◌then◌else◌,
}
use web_inspector.Agent.Probe.{Headers}
use web_inspector.Agent.Browser.{
  Challenge, Outcome, PageClass, classify_outcome, detect_challenge, found, user_visible_ok,
  no_challenge, is_akamai, is_captcha, is_cloudflare, is_datadome, is_generic_block, is_imperva,
  is_perimeterx,
}

-- The status of a page that is shown
abbrev pub is_shown : Option ℕ → Bool
is_shown none = false
is_shown (some n) = ltb n 400

abbrev pub is_visible : PageClass → Bool
is_visible user_visible_ok = true
is_visible page = false

-- A page is reported as well exactly if the browser did not time out, no challenge was found and a
-- response came with a status below 400; it is then, and only then, classified as visible.
pub classify_outcome-Shown :
    (show : ℕ → String) (status : Option ℕ) (nav_error : Option String) (timed_out : Bool)
    (challenge : Challenge)
    → let o = classify_outcome show status nav_error timed_out challenge in
      (o.ok ≡ (not timed_out && not challenge.is_challenge && is_shown status))
      × (is_visible o.page_classification ≡ o.ok)
unfolding classify_outcome
classify_outcome-Shown show status nav_error true challenge = (refl, refl)
classify_outcome-Shown show none nav_error false challenge =
    let Shown : Outcome → Type 0 = λ o.
      (o.ok ≡ (not challenge.is_challenge && false)) × (is_visible o.page_classification ≡ o.ok) in
    let none_shown : false ≡ (not challenge.is_challenge && false) = ground arith in
    if_cases Shown (truthy nav_error && true) (λ _. (none_shown, refl))
      (λ _.
        if_cases Shown challenge.is_challenge (λ h. (none_shown, refl)) (λ h. (none_shown, refl)))
classify_outcome-Shown show (some n) nav_error false challenge =
    let Shown : Outcome → Type 0 = λ o.
      (o.ok ≡ (not challenge.is_challenge && ltb n 400))
      × (is_visible o.page_classification ≡ o.ok) in
    if_cases Shown (truthy nav_error && false) (λ h. absurd (ground (arith, h)))
      (λ _.
        if_cases Shown challenge.is_challenge (λ h. (blocked h, refl))
          (λ h. if_cases Shown (leb 400 n) (λ k. (too_high k, refl)) (λ k. (shown h k, refl))))
  where
    blocked : challenge.is_challenge ≡ true → false ≡ (not challenge.is_challenge && ltb n 400)
    blocked h = ground arith

    too_high : leb 400 n ≡ true → false ≡ (not challenge.is_challenge && ltb n 400)
    too_high k = ground arith

    shown :
        challenge.is_challenge ≡ false
        → leb 400 n ≡ false
        → true ≡ (not challenge.is_challenge && ltb n 400)
    shown h k = ground arith

-- What a search for a challenge reports: a reason and one signal, or nothing at all.
pub record Single (c : Challenge) : Type 0 where
  pub one : c.is_challenge ≡ true → (length c.signals ≡ 1) × (truthy c.reason ≡ true)
  pub nothing : c.is_challenge ≡ false → (c.signals ≡ []) × (c.vendor ≡ none) × (c.reason ≡ none)

found-Single :
    (vendor : Option String) (reason signal : String)
    → truthy (some reason) ≡ true
    → Single (found vendor reason signal)
found-Single vendor reason signal h = record {
  one = λ _. (refl, h);
  nothing = λ k. absurd (ground arith);
}

nothing-Single : Single no_challenge
nothing-Single = record { one = λ k. absurd (ground arith); nothing = λ _. (refl, refl, refl) }

later-Single :
    (status : Option ℕ) (hay : String) (h : Headers)
    → Single (
        if is_perimeterx hay
        then found (some "PerimeterX") "PX_BLOCK" "perimeterx"
        else if is_datadome hay h
        then found (some "DataDome") "DATADOME_BLOCK" "datadome"
        else if is_generic_block status hay
        then found none "WAF_BLOCK" "generic_waf_block"
        else no_challenge)
later-Single status hay h =
    if_cases Single (is_perimeterx hay)
      (λ _. found-Single (some "PerimeterX") "PX_BLOCK" "perimeterx" refl)
      (λ _.
        if_cases Single (is_datadome hay h)
          (λ _. found-Single (some "DataDome") "DATADOME_BLOCK" "datadome" refl)
          (λ _.
            if_cases Single (is_generic_block status hay)
              (λ _. found-Single none "WAF_BLOCK" "generic_waf_block" refl) (λ _. nothing-Single)))

-- Whatever the page, a challenge is reported with exactly one signal and a reason that is not empty,
-- and without a challenge there is neither signal nor vendor nor reason.
pub detect_challenge-Single :
    (status : Option ℕ) (title body : String) (h : Headers)
    → Single (detect_challenge status title body h)
unfolding detect_challenge
detect_challenge-Single status title body h =
    let hay = title ++ₛ ("\n" ++ₛ body) in
    if_cases Single (is_cloudflare hay h)
      (λ _.
        if_cases (λ r. Single (found (some "Cloudflare") r "cloudflare_challenge")) (is_captcha hay)
          (λ _. found-Single (some "Cloudflare") "CAPTCHA" "cloudflare_challenge" refl)
          (λ _.
            found-Single (some "Cloudflare") "CLOUDFLARE_CHALLENGE" "cloudflare_challenge" refl))
      (λ _.
        if_cases Single (is_akamai status hay h)
          (λ _. found-Single (some "Akamai") "AKAMAI_BLOCK" "akamai_block" refl)
          (λ _.
            if_cases Single (is_imperva hay h)
              (λ _. found-Single (some "Imperva") "IMPERVA_BLOCK" "incapsula_incident" refl)
              (λ _. later-Single status hay h)))

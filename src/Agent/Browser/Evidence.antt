-- ===== src/Agent/Browser/Evidence.antt =====
-- browser-validation.mjs: the report of a page, put together from what the browser gathered. A string's
-- `length` and `slice` are in characters.
use Prim.Native.String.{◌++◌ as ◌++ₛ◌, ◌∷◌ as ◌∷ₛ◌}
use Prim.Native.Char.{Char, code}
use web_inspector.Prelude.{
  Bool, List, Option, String, [], eqb, false, find, get_or, if◌then◌else◌, leb, ltb, none, some,
  suc, true, zero, ℕ, ◌&&◌, ◌-◌, ◌==◌, ◌||◌, ◌∷◌, option_beq, string_eq,
}
use web_inspector.Prelude.Text.{fold_case, starts_with_ci, trim_start, drop_chars}
use web_inspector.Prelude.Dict.{insert, lookup}
use web_inspector.Agent.Probe.{Headers, mentions}
use web_inspector.Agent.Probe.Layers.{kept_headers, sent_header}
use web_inspector.Agent.Browser.{is_word}

unfoldable pub analyze_vendor : Headers → Option String
unfolding mentions
analyze_vendor h =
    let server = get_or (lookup "server" h) "" in
    if sent_header h "cf-ray" || mentions server ("cloudflare" ∷ [])
    then some "Cloudflare"
    else if sent_header h "akamai-grn"
        || sent_header h "x-akamai-transformed"
        || mentions server ("akamai" ∷ [])
    then some "Akamai"
    else if sent_header h "x-iinfo" || mentions server ("incapsula" ∷ "imperva" ∷ [])
    then some "Imperva"
    else if sent_header h "x-amz-cf-id" || mentions server ("cloudfront" ∷ [])
    then some "AWS CloudFront"
    else if sent_header h "x-served-by" || mentions server ("fastly" ∷ [])
    then some "Fastly"
    else if sent_header h "x-vercel-id" || mentions server ("vercel" ∷ [])
    then some "Vercel"
    else if sent_header h "x-nf-request-id" || mentions server ("netlify" ∷ [])
    then some "Netlify"
    else if sent_header h "x-datadome"
    then some "DataDome"
    else if mentions server ("big-ip" ∷ "bigip" ∷ "f5" ∷ [])
    then some "F5 BIG-IP"
    else none

-- `analyzeHeaders(headers)`: the vendor, and the headers that are kept
unfoldable pub analyze_headers : Headers → Option String × Headers
unfolding analyze_vendor kept_headers
analyze_headers h = (
  analyze_vendor h,
  kept_headers h (
      "server" ∷ "content-type" ∷ "cache-control" ∷ "cf-cache-status" ∷ "cf-mitigated" ∷ "via"
      ∷ "x-cache" ∷ "location" ∷ []),
)

unfoldable pub count_chars : String → ℕ
count_chars String.[] = 0
count_chars (String.◌∷◌ c s) = suc (count_chars s)

-- `s.slice(0, n)`
unfoldable pub take_chars : ℕ → String → String
take_chars zero s = ""
take_chars (suc n) String.[] = ""
take_chars (suc n) (String.◌∷◌ c s) = c ∷ₛ take_chars n s

unfoldable pub truncate : String → ℕ → String
unfolding count_chars take_chars
truncate s n = if ltb n (count_chars s) then take_chars n s else s

unfoldable pub mask : String → String
unfolding count_chars take_chars drop_chars
mask v =
    let n = count_chars v in
    if ltb 24 n then take_chars 12 v ++ₛ ("…" ++ₛ drop_chars (n - 8) v) else v

-- `s.split(mark)`, for a character
unfoldable pub split_at : ℕ → String → List String
split_at mark String.[] = "" ∷ []
split_at mark (String.◌∷◌ c s) =
    let rest = split_at mark s in
    if eqb (code c) mark
    then "" ∷ rest
    else elim rest [ [] ↦ [] | part ∷ parts ↦ (c ∷ₛ part) ∷ parts ]

abbrev pub second : List String → Option String
second (a ∷ b ∷ rest) = some b
second rest = none

pub data AbckVerdict : Type 0 where
  absent unknown passed blocked : AbckVerdict

pub record Abck : Type 0 where
  pub present : Bool
  pub verdict : AbckVerdict
  pub sample : Option String

abbrev pub abck_of : Option (String × String) → Abck
abck_of none = record { present = false; verdict = absent; sample = none }
abck_of (some (name, content)) =
    let token = second (split_at 126 content) in
    let verdict =
      if option_beq token (some "0")
      then passed
      else if option_beq token (some "-1")
      then blocked
      else unknown in
    record { present = true; verdict = verdict; sample = some (mask content) }

unfoldable pub abck_state : List (String × String) → Abck
unfolding mask split_at
abck_state cookies = abck_of (find (λ c. c.0 == "_abck") cookies)

-- What is left of a string after a start that is compared without ASCII case
unfoldable pub after_ci : String → String → Option String
unfolding starts_with_ci drop_chars count_chars
after_ci start s = if starts_with_ci s start then some (drop_chars (count_chars start) s) else none

abbrev pub then_read : Option String → (String → Option String) → Option String
then_read none f = none
then_read (some s) f = f s

-- The longest start of characters that `p` takes
unfoldable pub take_while : (Char → Bool) → String → String
take_while p String.[] = ""
take_while p (String.◌∷◌ c s) = let rest = take_while p s in if p c then c ∷ₛ rest else ""

-- `\s*([…]+)`
unfoldable pub capture_word : (Char → Bool) → String → Option String
unfolding take_while trim_start
capture_word p s = let word = take_while p (trim_start s) in if word == "" then none else some word

-- An optional character
abbrev pub skip_char : ℕ → String → String
skip_char n String.[] = ""
skip_char n (String.◌∷◌ c s) = if eqb (code c) n then s else c ∷ₛ s

abbrev pub need_char : ℕ → String → Option String
need_char n String.[] = none
need_char n (String.◌∷◌ c s) = if eqb (code c) n then some s else none

-- The first place of a string where `read` finds something
unfoldable pub first_match : (String → Option String) → String → Option String
first_match read String.[] = read ""
first_match read (String.◌∷◌ c s) =
    let rest = first_match read s in elim (read (c ∷ₛ s)) [ none ↦ rest | some word ↦ some word ]

-- `/reference\s*#\s*([\w.]+)/i`, `/incapsula incident id:?\s*([\w-]+)/i`, `/ray id:?\s*([0-9a-f]+)/i`
unfoldable pub read_akamai : String → Option String
unfolding after_ci trim_start capture_word is_word
read_akamai s = then_read (after_ci "reference" s) (λ rest.
    then_read (need_char 35 (trim_start rest)) (capture_word (λ c. is_word c || eqb (code c) 46)))

unfoldable pub read_incapsula : String → Option String
unfolding after_ci capture_word is_word
read_incapsula s =
    then_read (after_ci "incapsula incident id" s)
      (λ rest. capture_word (λ c. is_word c || eqb (code c) 45) (skip_char 58 rest))

-- A character of `[0-9a-f]`, without case
abbrev pub is_hex : Char → Bool
is_hex c = let n = fold_case (code c) in leb 48 n && leb n 57 || leb 97 n && leb n 102

unfoldable pub read_ray : String → Option String
unfolding after_ci capture_word
read_ray s = then_read (after_ci "ray id" s) (λ rest. capture_word is_hex (skip_char 58 rest))

-- `ids.key = value`, where there is one
abbrev pub add_id : Headers → String → Option String → Headers
add_id ids key none = ids
add_id ids key (some v) = insert key v ids

unfoldable pub extract_reference_ids : Headers → String → Headers
unfolding kept_headers first_match read_akamai read_incapsula read_ray
extract_reference_ids h body =
    let ids = kept_headers h (
      "cf-ray" ∷ "x-amz-cf-id" ∷ "akamai-grn" ∷ "x-served-by" ∷ "x-request-id" ∷ "x-vercel-id"
      ∷ "x-nf-request-id" ∷ "x-datadome" ∷ "x-iinfo" ∷ []) in
    let marked =
      add_id (add_id ids "akamaiReference" (first_match read_akamai body)) "incapsulaIncident"
        (first_match read_incapsula body) in
    if sent_header marked "cf-ray"
    then marked
    else add_id marked "cloudflareRayId" (first_match read_ray body)

-- ===== src/Bundles/Signing.antt =====
-- shared/protocol/bundle-signing.mjs. The keys and ed25519 are parameters; a signature is the text that
-- is decoded from base64, and the keys are those that `normalizePublicKeys` keeps.
pub mod Message
pub mod Replay
use Prim.Native.String.{◌++◌ as ◌++ₛ◌}
use web_inspector.Prelude.{
  Bool, List, Option, Result, String, exists, false, if◌then◌else◌, none, not, some, throw, value,
  ◌&&◌, ◌==◌, ◌>>=◌, ◌||◌, string_eq,
}

-- What a signature is bound to
pub record Signable : Type 0 where
  pub component : String
  pub version : String
  pub sha256 : String

abbrev pub is_blank : Signable → Bool
is_blank b = b.component == "" || b.version == "" || b.sha256 == ""

-- `a`, the end of its line, and what follows
abbrev pub line : String → String → String
line a rest = a ++ₛ ("\n" ++ₛ rest)

abbrev pub signed_text : Signable → String
signed_text b = line "webinspector-bundle" (line "v1" (line b.component (line b.version b.sha256)))

unfoldable pub bundle_signing_message : Signable → Result String String
bundle_signing_message b =
    if is_blank b
    then throw "component, version and sha256 are required to build a bundle signing message"
    else value (signed_text b)

module _ {Key Signature : Type 0} where
  module _ (crypto_sign : String → Key → Signature) where
    unfoldable pub sign_bundle : Signable → Key → Result String Signature
    unfolding bundle_signing_message
    sign_bundle b key = bundle_signing_message b >>= λ message. value (crypto_sign message key)

  module _ (is_empty : Signature → Bool) (crypto_verify : String → Key → Signature → Bool) where
    abbrev pub accepts_message : Result String String → List Key → Signature → Bool
    accepts_message (throw e) keys signature = false
    accepts_message (value message) keys signature =
        not (is_empty signature) && exists (λ key. crypto_verify message key signature) keys

    -- An absent signature is `none`.
    unfoldable pub verify_bundle_signature : Signable → Option Signature → List Key → Bool
    verify_bundle_signature b none keys = false
    verify_bundle_signature b (some signature) keys =
        accepts_message (bundle_signing_message b) keys signature

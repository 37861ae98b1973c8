-- ===== src/Bundles/Signing/Replay.antt =====
-- bundle-signing.mjs: a signature is good for the bundle it was made for, and for no other.
use web_inspector.Prelude.{
  Bool, Bool-cases, List, Option, Result, String, [], arith, exists, inl, inr, none, refl, some,
  subst, sym, throw, true, value, ◌∙◌, ◌∷◌, ◌≡◌, if_cases, All,
}
use web_inspector.Bundles.Signing.{
  Signable, accepts_message, bundle_signing_message, signed_text, verify_bundle_signature, is_blank,
}
use web_inspector.Bundles.Signing.Message.{IsClean, signed_text-injective}

text_of :
    (b : Signable) (message : String)
    → bundle_signing_message b ≡ value message
    → signed_text b ≡ message
unfolding bundle_signing_message
text_of b message =
    if_cases (λ r. r ≡ value message → signed_text b ≡ message) (is_blank b)
      (λ _ q. absurd (ground (arith, q))) (λ _ q. ground (arith, q))

module _ {Key Signature : Type 0} (is_empty : Signature → Bool)
    (crypto_verify : String → Key → Signature → Bool) where
  -- A key that accepts is one of the list, and has what all of them have.
  exists-All :
      (P : Key → Type 0) (p : Key → Bool) (keys : List Key)
      → All P keys
      → exists p keys ≡ true
      → (key : Key) × (p key ≡ true) × P key
  exists-All P p [] all h = absurd (ground arith)
  exists-All P p (key ∷ keys) (has_it, all) h = elim (Bool-cases (p key)) [
    | inl h1 ↦ (key, h1, has_it)
    | inr h0 ↦ exists-All P p keys all (ground (arith, h, h0))
  ]

  -- Suppose that the publisher's keys sign nothing but the texts of the bundles that were published;
  -- other keys may sign whatever their owners like. A bundle whose signature is accepted under a list of
  -- the publisher's keys was published, with its component, its version and its digest, if no component
  -- or version holds the end of a line.
  pub verified_was_published :
      (Published : Signable → Type 0) (IsPublisher : Key → Type 0)
      → ((b : Signable) → Published b → IsClean b)
      → ((message : String) (key : Key) (signature : Signature)
          → IsPublisher key
          → crypto_verify message key signature ≡ true
          → (b : Signable) × Published b × (message ≡ signed_text b))
      → (b : Signable) (signature : Option Signature) (keys : List Key) → All IsPublisher keys
      → IsClean b
      → verify_bundle_signature is_empty crypto_verify b signature keys ≡ true
      → Published b
  unfolding verify_bundle_signature
  verified_was_published Published IsPublisher clean unforged b none keys trusted hb h =
      absurd (ground arith)
  verified_was_published Published IsPublisher clean unforged b (some signature) keys trusted hb h =
      by_message (bundle_signing_message b) refl h
    where
      by_message :
          (m : Result String String)
          → bundle_signing_message b ≡ m
          → accepts_message is_empty crypto_verify m keys signature ≡ true
          → Published b
      by_message (throw e) q k = absurd (ground arith)
      by_message (value message) q k =
          let (key, good, trusted_key) =
            exists-All IsPublisher (λ key. crypto_verify message key signature) keys trusted
              (ground (arith, k)) in
          let (c, published, same) = unforged message key signature trusted_key good in
          subst Published
            (sym (signed_text-injective b c hb (clean c published) (text_of b message q ∙ same)))
            published

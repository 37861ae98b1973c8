-- ===== src/Bundles/Tests.antt =====
-- The signatures and the registry of bundles on concrete ones.
use web_inspector.Prelude.{
  Bool, String, [], arith, eq_iff, false, none, refl, some, subst, sym, throw, true, value, ℕ, ◌&&◌,
  ◌==◌, ◌∷◌, ◌≡◌, eqb, not, ◌||◌, string_eq,
}
use web_inspector.Prelude.Dict.{insert, lookup}
use web_inspector.Prelude.Cut.{is_free}
use web_inspector.Bundles.Signing.{
  Signable, bundle_signing_message, signed_text, verify_bundle_signature,
}
use web_inspector.Bundles.Signing.Message.{IsClean}
use web_inspector.Bundles.Signing.Replay.{verified_was_published}
use web_inspector.Bundles.Registry.{
  Published, bundle_record, data_ref, get, key, make_data_ref, register,
}
use web_inspector.Bundles.Registry.Immutable.{published_is_immutable, register_all}

abbrev agent_2 : Signable
agent_2 = record { component = "agent"; version = "2.0.0"; sha256 = "ab12" }

-- A scheme whose signature is the text itself. Key 1 is the publisher's and signed one bundle; whoever
-- has another key signs any text.
abbrev test_verify : String → ℕ → String → Bool
test_verify message key signature =
    signature == message && (not (eqb key 1) || message == signed_text agent_2)

agent_2-IsClean : IsClean agent_2
unfolding is_free
agent_2-IsClean = record { component = refl; version = refl }

published-IsClean : (b : Signable) → b ≡ agent_2 → IsClean b
published-IsClean b e = subst IsClean (sym e) agent_2-IsClean

unforged :
    (message : String) (key : ℕ) (signature : String)
    → key ≡ 1
    → test_verify message key signature ≡ true
    → (b : Signable) × (b ≡ agent_2) × (message ≡ signed_text b)
unforged message key signature one h =
    (agent_2, refl, (eq_iff message (signed_text agent_2)).0 (ground (arith, h, one)))

abbrev other_2 : Signable
other_2 = record agent_2 { version = "6.6.6" }

-- Under another key the signature of a bundle that was never published verifies.
test_other_key :
    verify_bundle_signature (λ s. s == "") test_verify other_2 (some (signed_text other_2)) (2 ∷ [])
    ≡ true
unfolding verify_bundle_signature bundle_signing_message
test_other_key = refl

test_accepted :
    verify_bundle_signature (λ s. s == "") test_verify agent_2 (some (signed_text agent_2)) (1 ∷ [])
    ≡ true
unfolding verify_bundle_signature bundle_signing_message
test_accepted = refl

test_blank :
    bundle_signing_message (record agent_2 { version = "" })
    ≡ throw "component, version and sha256 are required to build a bundle signing message"
unfolding bundle_signing_message
test_blank = refl

verified_was_published_example : agent_2 ≡ agent_2
verified_was_published_example =
    verified_was_published (λ s. s == "") test_verify (λ b. b ≡ agent_2) (λ key. key ≡ 1)
      published-IsClean unforged agent_2 (some (signed_text agent_2)) (1 ∷ []) (refl, tt)
      agent_2-IsClean test_accepted

abbrev publish_2 : Published
publish_2 = record {
  component = "agent";
  version = "2.0.0";
  sha256 = "ab12";
  size_bytes = 12;
  signature = none;
  release_notes = "";
}

test_found : get (register_all [] (publish_2 ∷ [])) "agent" "2.0.0" ≡ some (bundle_record publish_2)
unfolding get register_all register insert lookup
test_found = refl

test_again :
    register ((key "agent" "2.0.0", bundle_record publish_2) ∷ []) publish_2
    ≡ throw "bundle already registered (immutable): agent@2.0.0"
unfolding register lookup
test_again = refl

test_ref :
    data_ref ((key "agent" "2.0.0", bundle_record publish_2) ∷ []) "agent" "2.0.0"
    ≡ value (record {
      kind = "update_bundle";
      url = "/agent/updates/agent/2.0.0/bundle";
      sha256 = "ab12";
      size_bytes = 12;
      content_type = "application/zip";
      signature = none;
    })
unfolding data_ref get make_data_ref lookup
test_ref = refl

published_is_immutable_example :
    let b = bundle_record publish_2 in
    (get
        (register_all
          (register_all [] (publish_2 ∷ []))
          (record publish_2 { sha256 = "cd34" } ∷ []))
        "agent"
        "2.0.0"
      ≡ some b)
    × (b.component ≡ "agent")
    × (b.version ≡ "2.0.0")
    × ((b.sha256 == "") ≡ false)
published_is_immutable_example =
    published_is_immutable (publish_2 ∷ []) (record publish_2 { sha256 = "cd34" } ∷ []) "agent"
      "2.0.0" (bundle_record publish_2) refl test_found

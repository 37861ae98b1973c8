-- ===== src/Bundles/Signing/Message.antt =====
-- bundle-signing.mjs: what the text that is signed says.
use web_inspector.Prelude.{Bool, String, ap, refl, true, ◌∙◌, ◌≡◌}
use web_inspector.Prelude.Cut.{is_free, marked_injective}
use web_inspector.Bundles.Signing.{Signable, line, signed_text}

-- A text without the end of a line
abbrev pub one_line : String → Bool
one_line = is_free "\n"

-- Neither the component nor the version holds the end of a line.
pub record IsClean (b : Signable) : Type 0 where
  pub component : one_line b.component ≡ true
  pub version : one_line b.version ≡ true

abbrev signable : String → String → String → Signable
signable component version sha256 = record {
  component = component;
  version = version;
  sha256 = sha256;
}

-- The text that is signed determines the component, the version and the digest.
pub signed_text-injective :
    (b c : Signable) → IsClean b → IsClean c → signed_text b ≡ signed_text c → b ≡ c
unfolding is_free
signed_text-injective b c hb hc e =
    let inner : Signable → String = λ x. line x.component (line x.version x.sha256) in
    let (_, e1) =
      marked_injective "\n" "webinspector-bundle" "webinspector-bundle" (line "v1" (inner b))
        (line "v1" (inner c)) refl refl e in
    let (_, e2) = marked_injective "\n" "v1" "v1" (inner b) (inner c) refl refl e1 in
    let (p, e3) =
      marked_injective "\n" b.component c.component (line b.version b.sha256)
        (line c.version c.sha256) hb.component hc.component e2 in
    let (q, r) =
      marked_injective "\n" b.version c.version b.sha256 c.sha256 hb.version hc.version e3 in
    ap (λ x. signable x b.version b.sha256) p
    ∙ ap (λ x. signable c.component x b.sha256) q
    ∙ ap (λ x. signable c.component c.version x) r

-- ===== src/Bundles/Registry.antt =====
-- control-plane/control/bundle-registry.mjs: the bundles that were published. `make_data_ref` is that of
-- shared/protocol/data-plane.mjs; the time of registering is left out.
pub mod Immutable
use Prim.Native.String.{◌++◌ as ◌++ₛ◌}
use web_inspector.Prelude.{
  Bool, List, Option, Result, String, [], filter_by, if◌then◌else◌, none, not, some, throw, value,
  ℕ, ◌==◌, ◌||◌, ◌∷◌, string_eq,
}
use web_inspector.Prelude.Dict.{Dict, has, insert, lookup, values}

pub record Bundle : Type 0 where
  pub component : String
  pub version : String
  pub sha256 : String
  pub size_bytes : ℕ
  pub signature : Option String
  pub release_notes : String
  pub download_url : String

-- What `register` is called with
pub record Published : Type 0 where
  pub component : String
  pub version : String
  pub sha256 : String
  pub size_bytes : ℕ
  pub signature : Option String
  pub release_notes : String

abbrev pub Bundles : Type 0
Bundles = Dict String Bundle

-- `COMPONENTS.includes(component)`
abbrev pub is_component : String → Bool
is_component component = component == "agent" || component == "control-plane-agent"

abbrev pub key : String → String → String
key component version = component ++ₛ ("@" ++ₛ version)

abbrev pub bundle_record : Published → Bundle
bundle_record p = record {
  component = p.component;
  version = p.version;
  sha256 = p.sha256;
  size_bytes = p.size_bytes;
  signature = p.signature;
  release_notes = p.release_notes;
  download_url = "/agent/updates/" ++ₛ (p.component ++ₛ ("/" ++ₛ (p.version ++ₛ "/bundle")));
}

unfoldable pub register : Bundles → Published → Result String (Bundles × Bundle)
register bundles p =
    let k = key p.component p.version in
    if not (is_component p.component)
    then throw ("unknown component: " ++ₛ p.component)
    else if p.version == ""
    then throw "version is required"
    else if p.sha256 == ""
    then throw "sha256 is required (bundles are content-addressed)"
    else if has k bundles
    then throw ("bundle already registered (immutable): " ++ₛ k)
    else value (insert k (bundle_record p) bundles, bundle_record p)

unfoldable pub get : Bundles → String → String → Option Bundle
get bundles component version = lookup (key component version) bundles

-- `list(component)`; no component is `none`.
unfoldable pub list : Bundles → Option String → List Bundle
list bundles none = values bundles
list bundles (some component) =
    if component == ""
    then values bundles
    else filter_by (λ b. b.component == component) (values bundles)

pub record DataRef : Type 0 where
  pub kind : String
  pub url : String
  pub sha256 : String
  pub size_bytes : ℕ
  pub content_type : String
  pub signature : Option String

-- `DATA_CONTENT_TYPES`, whose keys are `DATA_KINDS`
abbrev pub content_types : Dict String String
content_types =
    ("result", "application/json")
    ∷ ("screenshot", "image/png")
    ∷ ("har", "application/json")
    ∷ ("trace", "application/zip")
    ∷ ("log_batch", "application/json")
    ∷ ("update_bundle", "application/zip")
    ∷ []

abbrev pub ref_with :
    Option String → String → String → String → ℕ → Option String → Result String DataRef
ref_with none kind url sha256 size_bytes signature = throw ("unknown data kind: " ++ₛ kind)
ref_with (some content_type) kind url sha256 size_bytes signature =
    if url == ""
    then throw "data ref requires a url"
    else if sha256 == ""
    then throw "data ref requires a sha256 (content-addressed)"
    else value (record {
      kind = kind;
      url = url;
      sha256 = sha256;
      size_bytes = size_bytes;
      content_type = content_type;
      signature = signature;
    })

unfoldable pub make_data_ref : String → String → String → ℕ → Option String → Result String DataRef
make_data_ref kind url sha256 size_bytes signature =
    ref_with (lookup kind content_types) kind url sha256 size_bytes signature

abbrev pub ref_of : String → String → Option Bundle → Result String DataRef
ref_of component version none = throw ("bundle not found: " ++ₛ key component version)
ref_of component version (some b) =
    make_data_ref "update_bundle" b.download_url b.sha256 b.size_bytes b.signature

unfoldable pub data_ref : Bundles → String → String → Result String DataRef
unfolding get
data_ref bundles component version = ref_of component version (get bundles component version)

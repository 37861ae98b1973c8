-- ===== src/Bundles/Registry/Immutable.antt =====
-- bundle-registry.mjs: a bundle that was published never changes.
use mathlib.Core.Option.{some-injective}
use web_inspector.Prelude.{
  List, Result, String, [], false, if_cases, not, some, throw, true, value, ◌==◌, ◌∷◌, ◌≡◌,
  Bool-cases, Option, arith, eq_iff, inl, inr, none, refl, subst, sym, ◌∙◌, ◌≢◌, ◌⊎◌, string_eq,
}
use web_inspector.Prelude.Dict.{has, lookup, insert, lookup-insert, lookup-nil}
use web_inspector.Prelude.Cut.{is_free, marked_injective}
use web_inspector.Bundles.Registry.{
  Bundle, Bundles, Published, is_component, key, register, bundle_record, get,
}

-- The registry after the calls of `register`, of which those that throw leave it alone
abbrev pub after_register : Bundles → Result String (Bundles × Bundle) → Bundles
after_register bundles (throw e) = bundles
after_register bundles (value (grown, b)) = grown

unfoldable pub register_all : Bundles → List Published → Bundles
register_all bundles [] = bundles
register_all bundles (p ∷ ps) = register_all (after_register bundles (register bundles p)) ps

-- Every bundle is filed under its own component and version, and has a digest.
pub record IsFiled (bundles : Bundles) : Type 0 where
  pub filed :
      (k : String) (b : Bundle)
      → lookup k bundles ≡ some b
      → (k ≡ key b.component b.version) × ((b.sha256 == "") ≡ false)
  pub known :
      (k : String) (b : Bundle) → lookup k bundles ≡ some b → is_component b.component ≡ true

-- What a call of `register` leaves: the bundles that were there, with the registry filed as before.
Keeps : Bundles → Bundles → Type 0
Keeps old new =
    ((k : String) (b : Bundle) → lookup k old ≡ some b → lookup k new ≡ some b) × IsFiled new

insert-Keeps :
    (bundles : Bundles) (p : Published)
    → IsFiled bundles
    → is_component p.component ≡ true
    → (p.sha256 == "") ≡ false
    → lookup (key p.component p.version) bundles ≡ none
    → Keeps bundles (insert (key p.component p.version) (bundle_record p) bundles)
unfolding Keeps
insert-Keeps bundles p inv component digest absent = (kept, record { filed = filed; known = known })
  where
    k : String
    k = key p.component p.version

    kept :
        (j : String) (b : Bundle)
        → lookup j bundles ≡ some b
        → lookup j (insert k (bundle_record p) bundles) ≡ some b
    kept j b h = elim (Bool-cases (k == j)) [
      | inl h1 ↦ absurd (
          ground
            (arith, absent, h, subst (λ x. lookup x bundles ≡ none) ((eq_iff k j).0 h1) absent))
      | inr h0 ↦ ground (arith, h0, h, lookup-insert k j (bundle_record p) bundles)
    ]

    inserted :
        (j : String) (b : Bundle)
        → lookup j (insert k (bundle_record p) bundles) ≡ some b
        → ((k ≡ j) × (bundle_record p ≡ b)) ⊎ (lookup j bundles ≡ some b)
    inserted j b h = elim (Bool-cases (k == j)) [
      | inl h1 ↦ inl (
        (eq_iff k j).0 h1,
        some-injective (bundle_record p) b
            (ground (arith, h1, h, lookup-insert k j (bundle_record p) bundles)),
      )
      | inr h0 ↦ inr (ground (arith, h0, h, lookup-insert k j (bundle_record p) bundles))
    ]

    filed :
        (j : String) (b : Bundle)
        → lookup j (insert k (bundle_record p) bundles) ≡ some b
        → (j ≡ key b.component b.version) × ((b.sha256 == "") ≡ false)
    filed j b h = elim (inserted j b h) [
      | inl (q, e) ↦
          subst (λ x. (j ≡ key x.component x.version) × ((x.sha256 == "") ≡ false)) e
            (sym q, digest)
      | inr old ↦ inv.filed j b old
    ]

    known :
        (j : String) (b : Bundle)
        → lookup j (insert k (bundle_record p) bundles) ≡ some b
        → is_component b.component ≡ true
    known j b h = elim (inserted j b h) [
      | inl (q, e) ↦ subst (λ (x : Bundle). is_component x.component ≡ true) e component
      | inr old ↦ inv.known j b old
    ]

register-Keeps :
    (bundles : Bundles) (p : Published)
    → IsFiled bundles
    → Keeps bundles (after_register bundles (register bundles p))
unfolding register Keeps
register-Keeps bundles p inv =
    let Kept : Result String (Bundles × Bundle) → Type 0 =
      λ r. Keeps bundles (after_register bundles r) in
    let k = key p.component p.version in
    let idle : Keeps bundles bundles = (λ k b h. h, inv) in
    if_cases Kept (not (is_component p.component)) (λ _. idle)
      (λ component.
        if_cases Kept (p.version == "") (λ _. idle)
          (λ _.
            if_cases Kept (p.sha256 == "") (λ _. idle)
              (λ digest.
                if_cases Kept (has k bundles) (λ _. idle)
                  (λ new.
                    insert-Keeps bundles p inv (ground (arith, component)) (ground (arith, digest))
                      (absent (lookup k bundles) new)))))
  where
    absent : (o : Option Bundle) → (elim o [ none ↦ false | some _ ↦ true ]) ≡ false → o ≡ none
    absent none h = refl
    absent (some b) h = absurd (ground arith)

register_all-Keeps :
    (bundles : Bundles) (ps : List Published)
    → IsFiled bundles
    → Keeps bundles (register_all bundles ps)
unfolding register_all Keeps
register_all-Keeps bundles [] inv = (λ k b h. h, inv)
register_all-Keeps bundles (p ∷ ps) inv =
    let (kept, filed) = register-Keeps bundles p inv in
    let (later, last) = register_all-Keeps (after_register bundles (register bundles p)) ps filed in
    (λ k b h. later k b (kept k b h), last)

nothing-IsFiled : IsFiled []
nothing-IsFiled = record {
  filed = λ k b h. absurd (some_none (sym h ∙ lookup-nil k));
  known = λ k b h. absurd (some_none (sym h ∙ lookup-nil k));
}
  where
    some_none : {b : Bundle} → some b ≢ none
    some_none e = ground (arith, e)

component_is_free :
    (component : String) → is_component component ≡ true → is_free "@" component ≡ true
unfolding is_free
component_is_free component h = elim (Bool-cases (component == "agent")) [
  | inl h1 ↦ subst (λ c. is_free "@" c ≡ true) (sym ((eq_iff component "agent").0 h1)) refl
  | inr h0 ↦
      subst (λ c. is_free "@" c ≡ true)
        (sym ((eq_iff component "control-plane-agent").0 (ground (arith, h, h0)))) refl
]

-- Once a bundle is found under a component and a version it is found there unchanged after any further
-- calls of `register`, and it is a bundle of that component and that version with a digest.
pub published_is_immutable :
    (earlier later : List Published) (component version : String) (b : Bundle)
    → is_component component ≡ true
    → get (register_all [] earlier) component version ≡ some b
    → (get (register_all (register_all [] earlier) later) component version ≡ some b)
      × (b.component ≡ component)
      × (b.version ≡ version)
      × ((b.sha256 == "") ≡ false)
unfolding get Keeps
published_is_immutable earlier later component version b known h =
    let (_, inv) = register_all-Keeps [] earlier nothing-IsFiled in
    let (kept, _) = register_all-Keeps (register_all [] earlier) later inv in
    let (filed, digest) = inv.filed (key component version) b h in
    let (p, q) =
      marked_injective "@" component b.component version b.version
        (component_is_free component known)
        (component_is_free b.component (inv.known (key component version) b h)) filed in
    (kept (key component version) b h, sym p, sym q, digest)

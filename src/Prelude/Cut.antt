-- ===== src/Prelude/Cut.antt =====
-- A text that a mark divides: what stands before the first mark, and behind it.
use Prim.Native.Char.{Char, code}
use Prim.Native.String.{String, ◌++◌ as ◌++ₛ◌, ◌∷◌ as ◌∷ₛ◌}
use text.Mathlib.TextLemmas.{nil-append, cons-append}
use mathlib.Core.Path.{◌≡◌, sym, ap, ◌∙◌}
use mathlib.Core.Bool.{Bool, true, not, ◌&&◌}
use native.Mathlib.Omega.{arith}
use web_inspector.Prelude.Tests.{eqb, if◌then◌else◌}

module _ (mark : Char) where
  -- A text without the mark
  unfoldable pub is_free : String → Bool
  is_free String.[] = true
  is_free (String.◌∷◌ c s) = not (eqb (code c) (code mark)) && is_free s

  unfoldable pub before : String → String
  before String.[] = ""
  before (String.◌∷◌ c s) =
      let rest = before s in if eqb (code c) (code mark) then "" else c ∷ₛ rest

  unfoldable pub behind : String → String
  behind String.[] = ""
  behind (String.◌∷◌ c s) = let rest = behind s in if eqb (code c) (code mark) then s else rest

  abbrev pub marked : String → String → String
  marked a rest = a ++ₛ ((mark ∷ₛ "") ++ₛ rest)

  mark_first : (rest : String) → marked "" rest ≡ mark ∷ₛ rest
  mark_first rest =
      nil-append ((mark ∷ₛ "") ++ₛ rest)
      ∙ cons-append mark "" rest
      ∙ ap (λ s. mark ∷ₛ s) (nil-append rest)

  before-marked : (a rest : String) → is_free a ≡ true → before (marked a rest) ≡ a
  unfolding before is_free
  before-marked String.[] rest h = ap before (mark_first rest) ∙ ground arith
  before-marked (String.◌∷◌ c a) rest h =
      let ih = before-marked a rest (ground (arith, h)) in
      ap before (cons-append c a ((mark ∷ₛ "") ++ₛ rest)) ∙ ground (arith, h, ih)

  behind-marked : (a rest : String) → is_free a ≡ true → behind (marked a rest) ≡ rest
  unfolding behind is_free
  behind-marked String.[] rest h = ap behind (mark_first rest) ∙ ground arith
  behind-marked (String.◌∷◌ c a) rest h =
      let ih = behind-marked a rest (ground (arith, h)) in
      ap behind (cons-append c a ((mark ∷ₛ "") ++ₛ rest)) ∙ ground (arith, h, ih)

  pub marked_injective :
      (a b s t : String)
      → is_free a ≡ true
      → is_free b ≡ true
      → marked a s ≡ marked b t
      → (a ≡ b) × (s ≡ t)
  marked_injective a b s t ha hb e = (
    sym (before-marked a s ha) ∙ ap before e ∙ before-marked b t hb,
    sym (behind-marked a s ha) ∙ ap behind e ∙ behind-marked b t hb,
  )

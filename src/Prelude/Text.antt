-- ===== src/Prelude/Text.antt =====
-- `String.prototype.trim`: the white space and line ends of ECMAScript, off both ends.
use Prim.Native.Char.{Char, code}
use Prim.Native.String.{String, ◌∷◌ as ◌∷ₛ◌, ◌++◌ as ◌++ₛ◌}
use mathlib.Core.Bool.{Bool, true, false, ◌&&◌, ◌||◌}
use mathlib.Core.List.{List, [], ◌∷◌}
use Prim.Native.Nat.{ℕ, zero, suc, ◌+◌}
use web_inspector.Prelude.Tests.{◌==◌, eqb, leb, if◌then◌else◌, string_eq}

unfoldable pub is_space : Char → Bool
is_space c =
    let n = code c in
    leb 9 n && leb n 13
    || eqb n 0x20
    || eqb n 0xa0
    || eqb n 0x1680
    || leb 0x2000 n && leb n 0x200a
    || leb 0x2028 n && leb n 0x2029
    || eqb n 0x202f
    || eqb n 0x205f
    || eqb n 0x3000
    || eqb n 0xfeff

unfoldable pub trim_start : String → String
unfolding is_space
trim_start String.[] = ""
trim_start (String.◌∷◌ c s) = let rest = trim_start s in if is_space c then rest else c ∷ₛ s

unfoldable pub trim_end : String → String
unfolding is_space
trim_end String.[] = ""
trim_end (String.◌∷◌ c s) =
    let rest = trim_end s in if is_space c && rest == "" then "" else c ∷ₛ rest

unfoldable pub trim : String → String
unfolding trim_start trim_end
trim s = trim_end (trim_start s)

-- `s.startsWith(start)`
unfoldable pub starts_with : String → String → Bool
starts_with s String.[] = true
starts_with String.[] (String.◌∷◌ d start) = false
starts_with (String.◌∷◌ c s) (String.◌∷◌ d start) = eqb (code c) (code d) && starts_with s start

-- `s.includes(part)`
unfoldable pub includes : String → String → Bool
unfolding starts_with
includes String.[] part = starts_with "" part
includes (String.◌∷◌ c s) part = starts_with (c ∷ₛ s) part || includes s part

-- `parts.join(separator)`
unfoldable pub join : String → List String → String
join separator [] = ""
join separator (s ∷ []) = s
join separator (s ∷ t ∷ rest) = s ++ₛ (separator ++ₛ join separator (t ∷ rest))

-- A code point without its case, where it is an ASCII letter
abbrev pub fold_case : ℕ → ℕ
fold_case n = if leb 65 n && leb n 90 then n + 32 else n

-- `/part/i.test(s)` of a plain ASCII `part`
unfoldable pub starts_with_ci : String → String → Bool
starts_with_ci s String.[] = true
starts_with_ci String.[] (String.◌∷◌ d start) = false
starts_with_ci (String.◌∷◌ c s) (String.◌∷◌ d start) =
    eqb (fold_case (code c)) (fold_case (code d)) && starts_with_ci s start

unfoldable pub includes_ci : String → String → Bool
unfolding starts_with_ci
includes_ci String.[] part = starts_with_ci "" part
includes_ci (String.◌∷◌ c s) part = starts_with_ci (c ∷ₛ s) part || includes_ci s part

-- `s.slice(n)`
unfoldable pub drop_chars : ℕ → String → String
drop_chars zero s = s
drop_chars (suc n) String.[] = ""
drop_chars (suc n) (String.◌∷◌ c s) = drop_chars n s

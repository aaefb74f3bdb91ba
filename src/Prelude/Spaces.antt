-- ===== src/Prelude/Spaces.antt =====
-- Trimming and lines: more of Go's `strings` package, over code points.
use Prim.Native.Nat.{ℕ}
use mathlib.Core.Bool.{Bool, ◌||◌, ◌&&◌}
use mathlib.Core.List.{List, [], ◌∷◌, reverse}
use mathlib.Core.Option.{Option, none, some}
use uagent_harness.Prelude.Tests.{◌==◌, leb, if◌then◌else◌}
use uagent_harness.Prelude.Texts.{Text}

-- unicode.IsSpace
unfoldable pub is_space : ℕ → Bool
is_space c =
    (leb 9 c && leb c 13)
    || c == 32
    || c == 0x85
    || c == 0xa0
    || c == 0x1680
    || (leb 0x2000 c && leb c 0x200a)
    || c == 0x2028
    || c == 0x2029
    || c == 0x202f
    || c == 0x205f
    || c == 0x3000

-- The cut set " \t\r\n\v\f".
unfoldable pub is_ascii_space : ℕ → Bool
is_ascii_space c = (leb 9 c && leb c 13) || c == 32

unfoldable pub trim_start : (ℕ → Bool) → Text → Text
trim_start test [] = []
trim_start test (c ∷ s) = let rest = trim_start test s in if test c then rest else c ∷ s

unfoldable pub trim_end : (ℕ → Bool) → Text → Text
unfolding trim_start
trim_end test s = reverse (trim_start test (reverse s))

-- strings.TrimSpace
unfoldable pub trim_space : Text → Text
unfolding trim_end is_space
trim_space s = trim_end is_space (trim_start is_space s)

-- strings.TrimRight with the ASCII cut set
unfoldable pub trim_right : Text → Text
unfolding trim_end is_ascii_space
trim_right s = trim_end is_ascii_space s

-- strings.CutPrefix
unfoldable pub cut_prefix : Text → Text → Option Text
cut_prefix s [] = some s
cut_prefix [] (_ ∷ _) = none
cut_prefix (a ∷ s) (b ∷ p) = let rest = cut_prefix s p in if a == b then rest else none

abbrev onto_first : ℕ → List Text → List Text
onto_first c [] = (c ∷ []) ∷ []
onto_first c (l ∷ ls) = (c ∷ l) ∷ ls

-- strings.Split by "\n"
unfoldable pub split_newlines : Text → List Text
split_newlines [] = [] ∷ []
split_newlines (c ∷ s) =
    let rest = split_newlines s in if c == 10 then [] ∷ rest else onto_first c rest

-- strings.TrimSuffix of "\r"
unfoldable pub trim_cr : Text → Text
trim_cr [] = []
trim_cr (c ∷ []) = if c == 13 then [] else c ∷ []
trim_cr (c ∷ d ∷ s) = c ∷ trim_cr (d ∷ s)

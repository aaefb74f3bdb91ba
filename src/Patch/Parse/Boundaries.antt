-- ===== src/Patch/Parse/Boundaries.antt =====
-- internal/patch/parse.go: the lines between the boundaries of a patch.
use mathlib.Core.List.{reverse}
use uagent_harness.Prelude.{
  Bool, false, not, ◌&&◌, ◌||◌, Option, none, some, List, [], ◌∷◌, map, leb, if◌then◌else◌, Text,
  codes, text_eq, has_prefix, length, trim_space, split_newlines, trim_cr,
}
use uagent_harness.Patch.Parse.Types.{
  unless, Message, ParseError, Result, begin_patch, end_patch, fail, first_line, last?, last_line,
  ok,
}

unfoldable pub split_lines : Text → List Text
split_lines [] = []
split_lines (c ∷ s) = map trim_cr (split_newlines (c ∷ s))

abbrev pub whole : Message → ParseError
whole m = record { line = 0; message = m }

abbrev trims_to : Text → Option Text → Bool
trims_to mark none = false
trims_to mark (some line) = text_eq (trim_space line) mark

unfoldable pub strict_boundaries : List Text → Option ParseError
strict_boundaries [] = some (whole last_line)
strict_boundaries (first ∷ rest) =
    if not (text_eq (trim_space first) begin_patch)
    then some (whole first_line)
    else if not (trims_to end_patch (last? (first ∷ rest)))
    then some (whole last_line)
    else none

abbrev has_suffix : Text → Text → Bool
has_suffix s p = has_prefix (reverse s) (reverse p)

-- All but the last line.
unfoldable pub but_last : List Text → List Text
but_last [] = []
but_last (a ∷ []) = []
but_last (a ∷ b ∷ l) = a ∷ but_last (b ∷ l)

-- Whether the lines are a heredoc.
unfoldable pub is_heredoc : List Text → Bool
is_heredoc [] = false
is_heredoc (first ∷ rest) =
    leb 4 (length (first ∷ rest))
    && (text_eq first (codes "<<EOF")
        || text_eq first (codes "<<'EOF'")
        || text_eq first (codes "<<\"EOF\""))
    && (elim (last? (first ∷ rest)) [ none ↦ false | some l ↦ has_suffix l (codes "EOF") ])

abbrev tail_of : List Text → List Text
tail_of [] = []
tail_of (a ∷ l) = l

unfoldable pub boundaries : List Text → Result (List Text)
boundaries lines = elim (strict_boundaries lines) [
  | none ↦ ok lines
  | some e ↦
      if is_heredoc lines
      then unless (strict_boundaries (but_last (tail_of lines))) (but_last (tail_of lines))
      else fail e
]

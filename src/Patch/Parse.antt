-- ===== src/Patch/Parse.antt =====
-- internal/patch/parse.go: the state machine that reads a patch's text as hunks. Texts are lists of
-- code points.
mod Types
mod Lines
mod Boundaries
pub mod Hunks
pub mod Steps
pub mod Complete
mod Samples
unfoldable pub use Types.*
unfoldable pub use Lines.*
unfoldable pub use Boundaries.*
use mathlib.Core.List.{reverse}
use uagent_harness.Prelude.{
  ℕ, zero, suc, ◌+◌, Bool, true, false, not, ◌&&◌, ◌||◌, Option, none, some, List, [], ◌∷◌, ◌++◌,
  map, ◌==◌, leb, if◌then◌else◌, Text, codes, text_eq, has_prefix, length, trim_space, trim_right,
  cut_prefix, split_newlines, trim_cr,
}

-- The last chunk of an update hunk, before a new header or the end.
pub ensure_chunk : Parser → Text → Option Chunk → Option ParseError
ensure_chunk p line none = none
ensure_chunk p line (some c) =
    if is_empty c
    then some (at_line p (if text_eq line end_patch then no_lines else unexpected_line line))
    else none

pub ensure_hunk : Parser → Text → Option Hunk → Option ParseError
ensure_hunk p line none = none
ensure_hunk p line (some h) = elim h.op [
  | add ↦ none
  | delete ↦ none
  | update ↦
      if length h.chunks == 0 && is_updating p.mode
      then some (record { line = p.hunk_line; message = empty_hunk h.path })
      else ensure_chunk p line (last? h.chunks)
]

pub ensure_update_not_empty : Parser → Text → Option ParseError
ensure_update_not_empty p line = ensure_hunk p line (last? p.hunks)

-- The path after each of the three marks, if it is there.
abbrev pub header_of : Option Text → Option Text → Option Text → Option (Hunk × Mode)
header_of (some path) deleted updated = some (new_hunk add path, adding)
header_of none (some path) updated = some (new_hunk delete path, deleting)
header_of none none (some path) = some (new_hunk update path, updating)
header_of none none none = none

-- Which hunk a header starts.
pub header_hunk : Text → Option (Hunk × Mode)
header_hunk trimmed =
    header_of (cut_prefix trimmed add_file) (cut_prefix trimmed delete_file)
      (cut_prefix trimmed update_file)

pub start_hunk : Parser → Hunk → Mode → Parser
start_hunk p h next = record {
  mode = next;
  hunks = p.hunks ++ h ∷ [];
  line = p.line;
  hunk_line = if is_updating next then p.line else p.hunk_line;
}

abbrev pub end_mode : Parser → Parser
end_mode p = record p { mode = ended }

pub header_start : Parser → Text → Option (Hunk × Mode) → Result (Option Parser)
header_start p trimmed none = ok none
header_start p trimmed (some (h, next)) =
    unless (ensure_update_not_empty p trimmed) (some (start_hunk p h next))

-- Starts a hunk or ends the patch; `ok none` for any other line.
pub header : Parser → Text → Result (Option Parser)
header p trimmed =
    if text_eq trimmed end_patch
    then unless (ensure_update_not_empty p trimmed) (some (end_mode p))
    else header_start p trimmed (header_hunk trimmed)

pub update_line : Parser → Text → Result Parser
update_line p line =
    let u = trim_right line in unless_header (header p u) (update_line_in p line u (last? p.hunks))

abbrev pub added : Parser → Text → Option Text → Result Parser
added p trimmed none = fail (at_line p (bad_header trimmed))
added p trimmed (some rest) =
    ok (on_last p (λ h. record h { contents = h.contents ++ (rest ++ 10 ∷ []) }))

pub add_line : Parser → Text → Text → Result Parser
add_line p line trimmed = added p trimmed (cut_prefix line (codes "+"))

pub process_in : Mode → Parser → Text → Result Parser
process_in not_started p line =
    if text_eq (trim_space line) begin_patch
    then ok (record p { mode = started })
    else fail (record { line = 0; message = first_line })
process_in started p line =
    let trimmed = trim_space line in
    unless_header (header p trimmed) (fail (at_line p (bad_header trimmed)))
process_in deleting p line =
    let trimmed = trim_space line in
    unless_header (header p trimmed) (fail (at_line p (bad_header trimmed)))
process_in adding p line =
    let trimmed = trim_space line in unless_header (header p trimmed) (add_line p line trimmed)
process_in updating p line = update_line p line
process_in ended p line =
    if length (trim_space line) == 0 then ok p else fail (record { line = 0; message = last_line })

pub process : Parser → Text → Result Parser
process p line = process_in p.mode p line

-- p.line++
abbrev pub next_line : Parser → Parser
next_line p = record p { line = p.line + 1 }

pub process_last : Parser → Text → Result Parser
process_last p line =
    if text_eq (trim_space line) end_patch
    then unless (ensure_update_not_empty p end_patch) (end_mode p)
    else process p line

pub parse_loop : Parser → List Text → Result Parser
parse_loop p [] = ok p
parse_loop p (line ∷ []) = process_last (next_line p) line
parse_loop p (line ∷ next ∷ rest) = do p' ← process (next_line p) line; parse_loop p' (next ∷ rest)

abbrev pub start : Parser
start = record { mode = not_started; hunks = []; line = 0; hunk_line = 0 }

abbrev pub finished : Parser → Result (List Hunk)
finished p = elim p.mode [ ended ↦ ok p.hunks | _ ↦ fail (whole last_line) ]

pub parse : Text → Result (List Hunk)
parse text = do
  lines ← boundaries (split_lines (trim_space text))
  p ← parse_loop start lines
  finished p

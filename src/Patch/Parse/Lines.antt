-- ===== src/Patch/Parse/Lines.antt =====
-- internal/patch/update.go: the lines of an update hunk.
use uagent_harness.Prelude.{
  Bool, true, false, not, ◌&&◌, ◌||◌, Option, none, some, [], ◌∷◌, ◌++◌, ◌==◌, if◌then◌else◌, Text,
  text_eq, has_prefix, length, cut_prefix,
}
use uagent_harness.Patch.Parse.Types.{
  Chunk, Hunk, ParseError, Parser, Result, at_line, context_mark, empty_context, end_of_file_mark,
  expected_context, fail, is_empty, last?, last_line, move_to, new_chunk, no_lines, ok,
  unexpected_line, update_last,
}

abbrev pub on_last : Parser → (Hunk → Hunk) → Parser
on_last p f = record p { hunks = update_last f p.hunks }

abbrev pub add_chunk : Chunk → Hunk → Hunk
add_chunk c h = record h { chunks = h.chunks ++ c ∷ [] }

abbrev pub with_last_chunk : (Chunk → Chunk) → Hunk → Hunk
with_last_chunk f h = record h { chunks = update_last f h.chunks }

-- A line that starts with neither a blank, `+` nor `-`.
unfoldable pub no_change_line : Parser → Text → Option Chunk → ParseError
no_change_line p line none = at_line p (unexpected_line line)
no_change_line p line (some c) =
    at_line p (if is_empty c then unexpected_line line else expected_context line)

-- The change that a line's first byte makes to a chunk.
unfoldable pub change : Text → Option (Chunk → Chunk)
change [] = some (λ c. record c { old = c.old ++ [] ∷ []; new = c.new ++ [] ∷ [] })
change (k ∷ line) =
    if k == b' '
    then some (λ c. record c { old = c.old ++ line ∷ []; new = c.new ++ line ∷ [] })
    else if k == b'+'
    then some (λ c. record c { new = c.new ++ line ∷ [] })
    else if k == b'-'
    then some (λ c. record c { old = c.old ++ line ∷ [] })
    else none

-- A first chunk is made for a change that stands before any marker.
unfoldable pub apply_change : (Chunk → Chunk) → Hunk → Hunk
apply_change f h = with_last_chunk f (if length h.chunks == 0 then add_chunk new_chunk h else h)

abbrev pub changed : Parser → ParseError → Option (Chunk → Chunk) → Result Parser
changed p e none = fail e
changed p e (some f) = ok (on_last p (apply_change f))

unfoldable pub change_line : Parser → Text → Option Chunk → Result Parser
change_line p line last = changed p (no_change_line p line last) (change line)

-- Whether the last chunk is there and ends the file.
abbrev pub ends_file : Option Chunk → Bool
ends_file none = false
ends_file (some c) = c.end_of_file

abbrev pub is_empty? : Option Chunk → Bool
is_empty? none = false
is_empty? (some c) = is_empty c

abbrev pub is_none : Option Chunk → Bool
is_none none = true
is_none (some c) = false

-- The mark of the end of the file, after `last`.
unfoldable pub mark_end : Parser → Option Chunk → Result Parser
mark_end p none = ok p
mark_end p (some c) =
    if is_empty c
    then fail (at_line p no_lines)
    else ok (on_last p (with_last_chunk (λ d. record d { end_of_file = true })))

abbrev pub or_text : Option Text → Text
or_text none = []
or_text (some s) = s

-- A line of an update hunk that is no header; `u` is the line with its end trimmed, `h` the hunk
-- and `last` its last chunk.
unfoldable pub update_hunk_line : Parser → Text → Text → Hunk → Option Chunk → Result Parser
update_hunk_line p line u h last =
    let is_context = text_eq u empty_context || has_prefix u context_mark in
    if ends_file last && length u == 0
    then ok p
    else if ends_file last && not is_context
    then fail (at_line p (expected_context line))
    else if is_none last && length h.move_path == 0 && has_prefix u move_to
    then ok (on_last p (λ k. record k { move_path = or_text (cut_prefix u move_to) }))
    else if is_context && is_empty? last
    then fail (at_line p (unexpected_line line))
    else if text_eq u empty_context
    then ok (on_last p (add_chunk new_chunk))
    else if has_prefix u context_mark
    then ok (
        on_last p (
          add_chunk (record new_chunk {
            context = or_text (cut_prefix u context_mark);
            has_context = true;
          })))
    else if text_eq u end_of_file_mark
    then mark_end p last
    else change_line p line last

-- The hunk at the end of the list, which an update line needs; without one the source would panic.
unfoldable pub update_line_in : Parser → Text → Text → Option Hunk → Result Parser
update_line_in p line u none = fail (at_line p last_line)
update_line_in p line u (some h) = update_hunk_line p line u h (last? h.chunks)

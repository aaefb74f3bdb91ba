-- ===== src/Patch/Parse/Samples.antt =====
-- internal/patch/parse.go: runs on concrete patches.
use uagent_harness.Prelude.{
  ◌≡◌, refl, true, List, [], ◌∷◌, Text, codes, All, cut_prefix, has_prefix, is_ascii_space,
  is_space, split_newlines, text_eq, trim_cr, trim_end, trim_right, trim_space, trim_start,
}
use uagent_harness.Patch.Parse.{
  add, delete, update, Hunk, new_hunk, ok, fail, parse, empty_hunk, message_text, target, add_line,
  apply_change, boundaries, but_last, change, change_line, ensure_chunk, ensure_hunk,
  ensure_update_not_empty, header, header_hunk, header_start, is_empty, is_heredoc, last?, mark_end,
  no_change_line, parse_loop, process, process_in, process_last, split_lines, start_hunk,
  strict_boundaries, update_hunk_line, update_last, update_line, update_line_in,
}
use uagent_harness.Patch.Parse.Hunks.{IsComplete}
use uagent_harness.Patch.Parse.Complete.{parse-IsComplete}

abbrev one_update : Text
one_update =
    codes
      "*** Begin Patch\n*** Update File: a\n*** Move to: b\n@@ f\n x\n-y\n+z\n*** End of File\n*** Delete File: c\n*** End Patch"

abbrev one_hunks : List Hunk
one_hunks =
    record (new_hunk update (codes "a")) {
      move_path = codes "b";
      chunks =
          record {
            context = codes "f";
            has_context = true;
            old = codes "x" ∷ codes "y" ∷ [];
            new = codes "x" ∷ codes "z" ∷ [];
            end_of_file = true;
          }
          ∷ [];
    }
    ∷ new_hunk delete (codes "c")
    ∷ []

parses_update : parse one_update ≡ ok one_hunks
unfolding parse boundaries strict_boundaries split_lines trim_space split_newlines text_eq trim_cr
    last? parse_loop process process_in header header_start header_hunk cut_prefix
    ensure_update_not_empty ensure_hunk add_line apply_change but_last change change_line
    ensure_chunk is_empty is_heredoc mark_end no_change_line process_last start_hunk
    update_hunk_line update_last update_line update_line_in is_ascii_space is_space trim_end
    trim_right trim_start has_prefix
parses_update = refl

parses_heredoc :
    parse (codes "<<'EOF'\n*** Begin Patch\n*** Add File: a\n+x\n*** End Patch\nEOF\n")
    ≡ ok (record (new_hunk add (codes "a")) { contents = codes "x\n" } ∷ [])
unfolding parse boundaries strict_boundaries split_lines trim_space split_newlines text_eq trim_cr
    is_heredoc last? has_prefix but_last parse_loop process process_in header header_start
    header_hunk add_line apply_change change change_line ensure_chunk ensure_hunk
    ensure_update_not_empty is_empty mark_end no_change_line process_last start_hunk
    update_hunk_line update_last update_line update_line_in cut_prefix is_ascii_space is_space
    trim_end trim_right trim_start
parses_heredoc = refl

refuses_empty_update :
    parse (codes "*** Begin Patch\n*** Update File: a\n*** End Patch")
    ≡ fail (record { line = 2; message = empty_hunk (codes "a") })
unfolding parse boundaries strict_boundaries split_lines trim_space split_newlines text_eq trim_cr
    last? parse_loop process process_in header header_start header_hunk cut_prefix
    ensure_update_not_empty ensure_hunk add_line apply_change but_last change change_line
    ensure_chunk is_empty is_heredoc mark_end no_change_line process_last start_hunk
    update_hunk_line update_last update_line update_line_in is_ascii_space is_space trim_end
    trim_right trim_start has_prefix
refuses_empty_update = refl

moves_to_b : target (record (new_hunk update (codes "a")) { move_path = codes "b" }) ≡ codes "b"
unfolding target
moves_to_b = refl

names_the_hunk :
    message_text (empty_hunk (codes "a")) ≡ codes "Update file hunk for path 'a' is empty"
unfolding message_text
names_the_hunk = refl

parse-IsComplete_example : All IsComplete one_hunks
parse-IsComplete_example = parse-IsComplete one_update one_hunks parses_update

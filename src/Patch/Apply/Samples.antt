-- ===== src/Patch/Apply/Samples.antt =====
-- internal/patch/apply.go: runs on a disk with one file.
use uagent_harness.Patch.Update.{
  context_at, end_newline, insert_at, insert_by_start, join_newlines, match_at, replacement,
  replacements, replacements_loop, retry, seek, seek_by, seek_loop, sort_by_start, splice,
  splice_all, updated, without_empty,
}
use uagent_harness.Prelude.{
  text_eq_iff, ◌≡◌, ◌≢◌, refl, true, false, List, [], ◌∷◌, Text, codes, text_eq, text_eq_iff,
  if◌then◌else◌, has_prefix, is_ascii_space, is_space, split_newlines, trim_end, trim_right,
  trim_space, trim_start,
}
use uagent_harness.Patch.Parse.{delete, update, Chunk, new_chunk, Hunk, new_hunk, but_last, last?}
use uagent_harness.Patch.Apply.{
  clean, resolve, Disk, found, unreadable, not_exist, Change, ok, fail, no_files, compute, write,
  paths, summary, clean_loop, join_slashes, parts_from, compute_loop, compute_step, join_path, read,
  group,
}
use uagent_harness.Patch.Apply.Replay.{Replays, compute-Replays}

abbrev one_file : Disk
one_file path = if text_eq path (codes "/w/a") then found (codes "x\n") else unreadable not_exist

abbrev x_to_y : Chunk
x_to_y = record new_chunk { old = codes "x" ∷ []; new = codes "y" ∷ [] }

abbrev move_a : Text → Hunk
move_a path = record (new_hunk update (codes "a")) { move_path = path; chunks = x_to_y ∷ [] }

abbrev move_and_delete : List Hunk
move_and_delete = move_a (codes "b/../c") ∷ new_hunk delete (codes "c") ∷ []

abbrev moved : Text → Text → Change
moved path abs = record {
  op = update;
  path = codes "a";
  move_path = path;
  abs = codes "/w/a";
  move_abs = abs;
  old = codes "x\n";
  new = codes "y\n";
}

abbrev two_changes : List Change
two_changes =
    moved (codes "b/../c") (codes "/w/c")
    ∷ record {
      op = delete;
      path = codes "c";
      move_path = [];
      abs = codes "/w/c";
      move_abs = [];
      old = codes "y\n";
      new = [];
    }
    ∷ []

cleans_dots : clean (codes "/w/./b/../../..//c") ≡ codes "/c"
unfolding clean has_prefix join_slashes clean_loop parts_from text_eq
cleans_dots = refl

computes_two : compute (codes "/w") one_file move_and_delete ≡ ok two_changes
unfolding compute compute_loop compute_step read text_eq resolve has_prefix join_path clean
    join_slashes clean_loop parts_from updated replacements replacements_loop context_at replacement
    seek but_last last? end_newline insert_at insert_by_start join_newlines match_at retry seek_by
    seek_loop sort_by_start splice splice_all without_empty is_ascii_space is_space split_newlines
    trim_end trim_right trim_space trim_start
computes_two = refl

no_hunks : compute (codes "/w") one_file [] ≡ fail no_files
unfolding compute
no_hunks = refl

-- A file that is moved to its own path is written, and then removed.
own_path :
    compute (codes "/w") one_file (move_a (codes "a") ∷ [])
    ≡ ok (moved (codes "a") (codes "/w/a") ∷ [])
unfolding compute compute_loop compute_step read text_eq resolve has_prefix join_path clean
    join_slashes clean_loop parts_from updated replacements replacements_loop context_at replacement
    seek but_last last? end_newline insert_at insert_by_start join_newlines match_at retry seek_by
    seek_loop sort_by_start splice splice_all without_empty is_ascii_space is_space split_newlines
    trim_end trim_right trim_space trim_start
own_path = refl

removes_own_path :
    write (moved (codes "a") (codes "/w/a")) one_file (codes "/w/a") ≡ unreadable not_exist
unfolding write text_eq
removes_own_path = refl

writes_two : paths (codes "/w") (move_a (codes "b") ∷ []) ≡ codes "/w/a" ∷ codes "/w/b" ∷ []
unfolding paths resolve text_eq has_prefix join_path clean join_slashes clean_loop parts_from
writes_two = refl

sums_up : summary two_changes ≡ codes "Success. Updated the following files:\nM b/../c\nD c\n"
unfolding summary group text_eq
sums_up = refl

texts_differ : (s t : Text) → text_eq s t ≡ false → s ≢ t
texts_differ s t e h = let k : text_eq s t ≡ true = (text_eq_iff s t).1 h in cc

c_is_not_a : text_eq (codes "/w/c") (codes "/w/a") ≡ false
unfolding text_eq
c_is_not_a = refl

nothing_is_not_c : text_eq [] (codes "/w/c") ≡ false
unfolding text_eq
nothing_is_not_c = refl

compute-Replays_example : Replays two_changes one_file
compute-Replays_example =
    compute-Replays (codes "/w") one_file move_and_delete two_changes computes_two
      (texts_differ _ _ c_is_not_a, (texts_differ _ _ nothing_is_not_c, tt))

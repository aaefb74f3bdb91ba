-- ===== src/Patch/Update/Samples.antt =====
-- internal/patch/update.go: runs on concrete files.
use uagent_harness.Prelude.{
  ◌≡◌, refl, true, false, some, none, List, [], ◌∷◌, map, arith, Text, codes, All, text_eq,
  trim_right, trim_space, is_ascii_space, is_space, split_newlines, trim_end, trim_start,
}
use uagent_harness.Patch.Parse.{Chunk, new_chunk, but_last, last?}
use uagent_harness.Patch.Update.{
  matchers, seek, Replacement, ok, no_lines, replacements, updated, failure_text, ascii_of,
  join_newlines, match_at, normalize, seek_by, seek_loop, context_at, end_newline, insert_at,
  insert_by_start, replacement, replacements_loop, retry, sort_by_start, splice, splice_all,
  without_empty,
}
use uagent_harness.Patch.Update.Seek.{Outcome, search_start, seek-Outcome}
use uagent_harness.Patch.Update.Bounds.{
  IsWithin, IsSorted, AreInRange, replacements-IsWithin, replacements-AreInRange,
}

abbrev letters : List Text
letters = map codes ("a" ∷ "b " ∷ "a" ∷ "b" ∷ [])

abbrev after_a : Chunk
after_a = record new_chunk {
  context = codes "a";
  has_context = true;
  old = codes "b" ∷ [];
  new = codes "c" ∷ codes "d" ∷ [];
}

abbrev at_end : Chunk
at_end = record new_chunk { new = codes "e" ∷ [] }

abbrev two_replacements : List Replacement
two_replacements =
    record { start = 3; count = 1; lines = codes "c" ∷ codes "d" ∷ [] }
    ∷ record { start = 4; count = 0; lines = codes "e" ∷ [] }
    ∷ []

exact_first : seek letters (codes "b" ∷ []) 0 false ≡ some 3
unfolding seek seek_by seek_loop match_at text_eq
exact_first = refl

trims_last : seek letters (map codes ("b" ∷ "a" ∷ [])) 0 false ≡ some 1
unfolding seek seek_by seek_loop match_at text_eq trim_right
trims_last = refl

eof_is_the_end : seek letters (codes "a" ∷ []) 0 true ≡ none
unfolding seek seek_by seek_loop match_at text_eq trim_right trim_space normalize ascii_of
eof_is_the_end = refl

abbrev b_to_c : Chunk
b_to_c = record new_chunk { old = codes "b" ∷ []; new = codes "c" ∷ [] }

abbrev last_b_to_d : Chunk
last_b_to_d = record new_chunk { old = codes "b" ∷ []; new = codes "d" ∷ []; end_of_file = true }

-- The second chunk is found where the first one was.
eof_goes_back :
    replacements (codes "a" ∷ codes "b" ∷ []) (b_to_c ∷ last_b_to_d ∷ [])
    ≡ ok (
        record { start = 1; count = 1; lines = codes "c" ∷ [] }
        ∷ record { start = 1; count = 1; lines = codes "d" ∷ [] }
        ∷ [])
unfolding replacements replacements_loop context_at replacement seek seek_by seek_loop match_at
    text_eq sort_by_start insert_by_start insert_at last?
eof_goes_back = refl

finds_both : replacements letters (at_end ∷ after_a ∷ []) ≡ ok two_replacements
unfolding replacements replacements_loop context_at replacement seek seek_by seek_loop match_at
    text_eq sort_by_start insert_by_start insert_at last?
finds_both = refl

updates_a_file :
    updated (codes "a\nb \na\nb") (at_end ∷ after_a ∷ []) ≡ ok (codes "a\nb \na\nc\nd\ne\n")
unfolding updated replacements replacements_loop context_at replacement seek without_empty last?
    split_newlines seek_by seek_loop match_at text_eq join_newlines end_newline splice_all
    sort_by_start insert_by_start but_last ascii_of insert_at normalize retry splice is_ascii_space
    is_space trim_end trim_right trim_space trim_start
updates_a_file = refl

names_the_lines :
    failure_text (codes "f") (no_lines (codes "x" ∷ []))
    ≡ codes "Failed to find expected lines in f:\nx"
unfolding failure_text join_newlines
names_the_lines = refl

seek-Outcome_example :
    Outcome matchers letters
      (codes "b" ∷ [])
      (search_start letters (codes "b" ∷ []) 0 false)
      (seek letters (codes "b" ∷ []) 0 false)
seek-Outcome_example = seek-Outcome letters (codes "b" ∷ []) 0 false (omega arith)

replacements-IsWithin_example : All (IsWithin letters) two_replacements × IsSorted two_replacements
replacements-IsWithin_example =
    replacements-IsWithin letters (at_end ∷ after_a ∷ []) two_replacements finds_both

replacements-AreInRange_example : AreInRange two_replacements letters
replacements-AreInRange_example =
    replacements-AreInRange letters (at_end ∷ after_a ∷ []) two_replacements finds_both

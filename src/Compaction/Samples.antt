-- ===== src/Compaction/Samples.antt =====
-- internal/compaction: runs on small histories.
use uagent_harness.Prelude.{
  ℕ, ◌-◌, ◌≡◌, ◌≤◌, ◌<◌, refl, true, false, none, some, List, [], ◌∷◌, ◌++◌, Text, codes, text_eq,
  arith, length, keep_if, ◌⊎◌, contains, join_words, trim_space, has_prefix, is_space, trim_end,
  trim_start,
}
use uagent_harness.Compaction.Item.{
  Item, Body, message, tool_call, tool_result, reasoning, other_body, developer_role, message_type,
  other_type, configuration, configuration_type, text_output, image_output, user_text,
  is_user_message, model_generated, configured, configured_loop, developer, is_developer_message,
  is_heartbeat,
}
use uagent_harness.Compaction.Tokens.{
  truncate_middle, in_use, decimal, estimate_tokens, added_since, byte_length, digits, drop_bytes,
  item_bytes, kept_end, output_bytes, take_bytes, truncated_mark, width, after_bytes, approx_tokens,
}
use uagent_harness.Compaction.Keep.{is_wanted, kept, kept_loop, truncated}
use uagent_harness.Compaction.Keep.Newest.{Newest}
use uagent_harness.Compaction.Cover.{coverable, coverable_keeping}
use uagent_harness.Compaction.Cover.Bounds.{At, coverable-At}
use uagent_harness.Compaction.Elide.{
  Readers, Elision, elide, elidable, commas, clip, one_line, union, still_elided, call_of,
  elide_loop, result_text, stub, calls_after, count_calls, elidable_loop, is_old,
}
use uagent_harness.Compaction.Elide.Old.{Chosen, elidable-Chosen}
use uagent_harness.Compaction.Record.{
  Record, Codec, ok, too_short, out_of_range, manual_trigger, clear_trigger, verb, apply, replaced,
  new_record, new_clear, with_elided, call_ids, detach_loop, detach_orphans, encode, hash_of,
  keep_tokens, new_record_covering, orphan_note, output_texts, remote_marker, remote_placeholder,
  summary_items, summary_message, summary_text,
}
use uagent_harness.Compaction.Record.Applies.{IsView, apply-new_record}
use uagent_harness.Compaction.Record.Paired.{ArePaired, rest_of, apply-ArePaired}

abbrev readers : Readers
readers = record { argument = λ arguments key. []; exit_code = λ text. none; quoted = λ text. text }

-- Items encode as their texts, and a text is its own hash.
abbrev codec : Codec
codec = record {
  marshal = λ item. some (elim item.body [
    | message role text ↦ text
    | tool_call id name arguments ↦ id
    | tool_result id outputs ↦ id
    | reasoning encrypted ↦ []
    | configuration effort ↦ effort
    | other_body ↦ []
  ]);
  sha256 = λ text. text;
  summary_prefix = codes "S";
  readers = readers;
}

abbrev item_of : Body → Item
item_of body = record { provider_id = []; type_of = other_type; body = body }

abbrev call : Text → Item
call id = item_of (tool_call id (codes "run") [])

abbrev output : Text → Item
output id = item_of (tool_result id (record { kind = text_output; value = codes "done" } ∷ []))

-- First instructions, a question, a call and its output, and the next question.
abbrev history : List Item
history =
    record {
      provider_id = [];
      type_of = message_type;
      body = message developer_role (codes "rules");
    }
    ∷ user_text (codes "list the files")
    ∷ call (codes "a")
    ∷ output (codes "a")
    ∷ user_text (codes "thanks")
    ∷ []

truncates_middle :
    truncate_middle (codes "0123456789abcdef") 2 ≡ codes "0123…2 tokens truncated…cdef"
unfolding truncate_middle byte_length width take_bytes truncated_mark decimal digits kept_end
    drop_bytes
truncates_middle = refl

groups_digits : commas 1234567 ≡ codes "1,234,567"
unfolding commas decimal digits
groups_digits = refl

clips : clip (codes "abcdefgh") 6 ≡ codes "abc…"
unfolding clip byte_length width take_bytes
clips = refl

one_lines : one_line (codes " a\n\nb  c ") ≡ codes "a ⏎ ⏎ b c"
unfolding one_line join_words trim_space text_eq
one_lines = refl

unions : union (codes "a" ∷ []) (codes "b" ∷ codes "a" ∷ []) ≡ codes "a" ∷ codes "b" ∷ []
unfolding union contains text_eq
unions = refl

still_there : still_elided history (codes "a" ∷ codes "b" ∷ []) ≡ codes "a" ∷ []
unfolding still_elided contains text_eq
still_there = refl

covers_to_output : coverable history ≡ 3
unfolding coverable is_user_message
covers_to_output = refl

covers_before_call : coverable_keeping history 1 ≡ 1
unfolding coverable_keeping coverable is_user_message model_generated
covers_before_call = refl

configures :
    configured (
      record { provider_id = []; type_of = configuration_type; body = configuration (codes "high") }
      ∷ [])
    ≡ codes "high"
unfolding configured configured_loop
configures = refl

counts_added : in_use history 100 ≡ 104
unfolding in_use estimate_tokens added_since model_generated item_bytes byte_length width
    output_bytes
counts_added = refl

clears : verb clear_trigger ≡ codes "clear"
unfolding verb
clears = refl

abbrev elision : Elision
elision = record { after_calls = 1; big_tokens = 0; big_after_calls = 0 }

coverable-At_example :
    (coverable history ≤ length history - 1)
    × ((coverable history ≡ 0) ⊎ At is_user_message history (coverable history) false)
    × ((i : ℕ) → coverable history < i → i < length history → At is_user_message history i true)
coverable-At_example = coverable-At history

-- A long output of the call, which one more call follows.
abbrev long_history : List Item
long_history =
    call (codes "a")
    ∷ item_of (tool_result (codes "a") (record { kind = image_output; value = [] } ∷ []))
    ∷ call (codes "b")
    ∷ output (codes "b")
    ∷ []

names_the_old_one : elidable elision long_history [] ≡ codes "a" ∷ []
unfolding elidable elidable_loop call_of text_eq calls_after is_old count_calls estimate_tokens
    item_bytes byte_length width output_bytes contains
names_the_old_one = refl

elidable-Chosen_example :
    ((elision.after_calls ≡ 0) × (elidable elision long_history [] ≡ []))
    ⊎ ((0 < elision.after_calls)
        × Chosen elision long_history [] long_history (elidable elision long_history []))
elidable-Chosen_example = elidable-Chosen elision long_history []

abbrev history_record : Record
history_record = record {
  covered = 3;
  floor = 0;
  hash = codes "list the files\na\na\n";
  summary = codes "it listed files";
  trigger = manual_trigger;
  model = [];
  made_at = 7;
  keep = 0;
  focus = [];
  elided = [];
  remote = [];
  ledger = [];
}

records : new_record codec history (codes "it listed files") manual_trigger [] 7 ≡ ok history_record
unfolding new_record new_record_covering hash_of encode coverable is_user_message
records = refl

clears_all :
    new_clear codec history 7
    ≡ ok (record history_record { floor = 3; summary = []; trigger = clear_trigger })
unfolding new_clear new_record new_record_covering hash_of encode coverable is_user_message
clears_all = refl

-- An empty history has nothing to slice.
panics_on_nothing : new_record codec [] [] manual_trigger [] 7 ≡ out_of_range
unfolding new_record new_record_covering coverable
panics_on_nothing = refl

apply-new_record_example :
    (covered tail view : List Item) × (rest_of history ≡ covered ++ tail)
    × (length covered ≡ coverable history)
    × (apply codec (history ++ call (codes "b") ∷ []) history_record ≡ ok view)
    × IsView codec
        (codes "it listed files")
        (elim history [ [] ↦ call [] | first ∷ items ↦ first ])
        covered
        (tail ++ call (codes "b") ∷ [])
        view
apply-new_record_example =
    apply-new_record codec (elim history [ [] ↦ call [] | first ∷ items ↦ first ]) (rest_of history)
      (call (codes "b") ∷ []) (codes "it listed files") manual_trigger [] 7 history_record records
      (omega arith)

-- A record that covers a call but not its output.
abbrev split_record : Record
split_record = record history_record { covered = 2; hash = codes "list the files\na\n" }

abbrev split_view : List Item
split_view =
    elim history [ [] ↦ [] | first ∷ items ↦ first ∷ [] ]
    ++ user_text (codes "list the files")
      ∷ user_text (codes "S\nit listed files")
      ∷ user_text (codes "Output of the earlier tool call a, which the summary covers:\ndone")
      ∷ user_text (codes "thanks")
      ∷ []

detaches : apply codec history split_record ≡ ok split_view
unfolding apply hash_of encode text_eq replaced developer keep_if is_developer_message kept
    keep_tokens is_wanted is_user_message is_heartbeat has_prefix approx_tokens byte_length width
    call_of clip commas elide elide_loop one_line result_text stub kept_loop truncated call_ids
    detach_loop detach_orphans orphan_note output_texts remote_marker remote_placeholder
    summary_items summary_message summary_text after_bytes decimal digits drop_bytes estimate_tokens
    item_bytes kept_end output_bytes take_bytes truncate_middle truncated_mark is_space trim_end
    trim_space trim_start contains join_words
detaches = refl

refuses_short : apply codec (call [] ∷ []) split_record ≡ too_short 2 0
unfolding apply
refuses_short = refl

elides_again :
    with_elided split_record (codes "a" ∷ codes "a" ∷ [])
    ≡ record split_record { elided = codes "a" ∷ [] }
unfolding with_elided union contains text_eq
elides_again = refl

apply-ArePaired_example : ArePaired (rest_of split_view)
apply-ArePaired_example =
    apply-ArePaired codec history split_record split_view (omega arith) detaches

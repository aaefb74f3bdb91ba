-- ===== src/Compaction/Record.antt =====
-- internal/compaction/compaction.go: a compaction as a record, and the history as the model sees it.
pub mod Applies
pub mod Paired
use uagent_harness.Prelude.{
  ℕ, zero, suc, ◌+◌, ◌-◌, Bool, true, false, not, ◌&&◌, ◌||◌, Option, none, some, List, [], ◌∷◌,
  ◌++◌, ◌==◌, ltb, leb, if◌then◌else◌, Text, codes, text_eq, contains, trim_space, length, take,
  drop,
}
use uagent_harness.Compaction.Item.{
  Item, Body, message, tool_call, tool_result, Role, user_role, message_type, Output, text_output,
  image_output, call_id, developer, user_text,
}
use uagent_harness.Compaction.Keep.{kept}
use uagent_harness.Compaction.Cover.{coverable}
use uagent_harness.Compaction.Elide.{Readers, elide, union, join_lines}

pub data Trigger : Type 0 where
  manual_trigger auto_trigger clear_trigger : Trigger

unfoldable pub verb : Trigger → Text
verb clear_trigger = codes "clear"
verb manual_trigger = codes "compaction"
verb auto_trigger = codes "compaction"

-- The record without its measurements. `keep` 0 stands for the default.
pub record Record : Type 0 where
  pub covered : ℕ
  pub floor : ℕ
  pub hash : Text
  pub summary : Text
  pub trigger : Trigger
  pub model : Text
  pub made_at : ℕ
  pub keep : ℕ
  pub focus : Text
  pub elided : List Text
  pub remote : Text
  pub ledger : Text

-- What libraries give, and the embedded text that precedes a summary: an item as JSON (`none` when it
-- does not encode), the SHA-256 of a text in hexadecimal, and the readers of tool calls.
pub record Codec : Type 0 where
  pub marshal : Item → Option Text
  pub sha256 : Text → Text
  pub summary_prefix : Text
  pub readers : Readers

pub data Result {ℓ} (A : Type ℓ) : Type ℓ where
  ok : A → Result A
  encode_failed : Result A
  too_short : ℕ → ℕ → Result A
  hash_differs : Result A
  -- The source indexes out of range, and panics.
  out_of_range : Result A

abbrev pub default_keep : ℕ
default_keep = 20000

unfoldable pub keep_tokens : ℕ → ℕ
keep_tokens n = if n == 0 then default_keep else n

abbrev line_of : Option Text → Option Text → Option Text
line_of (some line) (some rest) = some (line ++ (10 ∷ rest))
line_of _ _ = none

abbrev output_text : Output → List Text
output_text o = elim o.kind [
  | text_output ↦ o.value ∷ []
  | image_output ↦ codes "[image omitted]" ∷ []
]

unfoldable pub output_texts : List Output → List Text
output_texts [] = []
output_texts (o ∷ outputs) = output_text o ++ output_texts outputs

unfoldable pub orphan_note : Text → List Output → Item
orphan_note id outputs = user_text (
    codes "Output of the earlier tool call "
    ++ (id ++ (codes ", which the summary covers:\n" ++ join_lines (output_texts outputs))))

abbrev id_list : Option Text → List Text
id_list none = []
id_list (some id) = id ∷ []

-- The ids of the tool calls.
unfoldable pub call_ids : List Item → List Text
call_ids [] = []
call_ids (item ∷ items) = id_list (call_id item.body) ++ call_ids items

abbrev pub attached : List Text → Item → Body → Item
attached calls item (tool_result id outputs) =
    if contains calls id then item else orphan_note id outputs
attached calls item body = item

unfoldable pub detach_loop : List Text → List Item → List Item
detach_loop calls [] = []
detach_loop calls (item ∷ items) = attached calls item item.body ∷ detach_loop calls items

-- Tool results whose call is not there, as user messages.
unfoldable pub detach_orphans : List Item → List Item
detach_orphans items = detach_loop (call_ids items) items

abbrev pub or_summary : Text → Text → Text
or_summary [] summary = codes "(no summary available)"
or_summary (c ∷ s) summary = summary

unfoldable pub summary_text : Record → Text
summary_text r = elim r.ledger [
  | [] ↦ r.summary
  | c ∷ ledger ↦ trim_space r.summary ++ (codes "\n\n" ++ (c ∷ ledger))
]

unfoldable pub remote_marker : Record → Text
remote_marker r = codes "uah-remote-compaction:" ++ take 16 r.hash

unfoldable pub remote_placeholder : Record → Text
remote_placeholder r =
    codes "["
    ++ (remote_marker r
        ++ codes
            "] The earlier conversation was compacted by the provider into an encrypted item that this model cannot read.")

abbrev ledger_items : Text → List Item
ledger_items [] = []
ledger_items (c ∷ ledger) = user_text (c ∷ ledger) ∷ []

module _ (codec : Codec) where
  unfoldable pub encode : List Item → Option Text
  encode [] = some []
  encode (item ∷ items) = line_of (codec.marshal item) (encode items)

  abbrev hashed : Option Text → Option Text
  hashed none = none
  hashed (some text) = some (codec.sha256 text)

  unfoldable pub hash_of : List Item → Option Text
  hash_of items = hashed (encode items)

  unfoldable pub summary_message : Text → Item
  summary_message summary =
      user_text (codec.summary_prefix ++ (10 ∷ or_summary (trim_space summary) summary))

  -- For the provider's item of a remote compaction, which is empty for a local one.
  abbrev pub summary_for : Record → Text → List Item
  summary_for r [] = summary_message (summary_text r) ∷ []
  summary_for r (c ∷ remote) = user_text (remote_placeholder r) ∷ ledger_items r.ledger

  unfoldable pub summary_items : Record → List Item
  summary_items r = summary_for r r.remote

  -- The history with the covered items replaced.
  unfoldable pub replaced : Record → Item → List Item → List Item → List Item
  replaced r first covered tail =
      first
      ∷ (developer covered
          ++ (kept (drop r.floor covered) (keep_tokens r.keep)
              ++ ((if ltb r.floor r.covered then summary_items r else [])
                  ++ detach_orphans (elide codec.readers tail r.elided))))

  abbrev checked : Record → Item → List Item → List Item → Option Text → Result (List Item)
  checked r first covered tail none = encode_failed
  checked r first covered tail (some hash) =
      if text_eq hash r.hash then ok (replaced r first covered tail) else hash_differs

  unfoldable pub apply : List Item → Record → Result (List Item)
  apply [] r = ok (elide codec.readers [] r.elided)
  apply (first ∷ items) r =
      if r.covered == 0
      then ok (elide codec.readers (first ∷ items) r.elided)
      else if ltb (suc (length items)) (1 + r.covered)
      then too_short r.covered (length items)
      else checked r first (take r.covered items) (drop r.covered items)
          (hash_of (take r.covered items))

  abbrev recorded : ℕ → Text → Trigger → Text → ℕ → Option Text → Result Record
  recorded covered summary trigger model made_at none = encode_failed
  recorded covered summary trigger model made_at (some hash) = ok (record {
    covered = covered;
    floor = 0;
    hash = hash;
    summary = summary;
    trigger = trigger;
    model = model;
    made_at = made_at;
    keep = 0;
    focus = [];
    elided = [];
    remote = [];
    ledger = [];
  })

  -- Slices `input` to its length at most, as a slice without spare capacity allows.
  unfoldable pub new_record_covering : List Item → ℕ → Text → Trigger → Text → ℕ → Result Record
  new_record_covering input covered summary trigger model made_at =
      let made =
        recorded covered summary trigger model made_at (hash_of (take covered (drop 1 input))) in
      if ltb (length input) (1 + covered) then out_of_range else made

  unfoldable pub new_record : List Item → Text → Trigger → Text → ℕ → Result Record
  new_record input summary trigger model made_at =
      new_record_covering input (coverable input) summary trigger model made_at

  abbrev cleared : Result Record → Result Record
  cleared (ok r) = ok (record r { floor = r.covered })
  cleared other = other

  unfoldable pub new_clear : List Item → ℕ → Result Record
  new_clear input made_at = cleared (new_record input [] clear_trigger [] made_at)

unfoldable pub with_elided : Record → List Text → Record
with_elided r ids = record r { elided = union r.elided ids }

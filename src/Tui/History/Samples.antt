-- ===== src/Tui/History/Samples.antt =====
-- internal/tui/state/history.go and historysearch.go: a session in /w.
use uagent_harness.Compaction.Tokens.{decimal, digits}
use uagent_harness.Prelude.{
  text_eq, trim_space, trim_end, trim_start, is_space, cut_prefix, has_infix, has_prefix, contains,
  split_newlines, ℕ, ◌≡◌, refl, true, false, Option, none, some, List, [], ◌∷◌, Text, codes,
  if◌then◌else◌, ◌+◌, leb, ◌&&◌,
}
use uagent_harness.Images.{
  Image, tag, tag_lines, tags_loop, some_of, span, number_of, atoi, display, join_images,
  split_images, parse_tag,
}
use uagent_harness.Tui.History.{
  on_history, remember, is_command, all_name, command_name, reset, add, repeats, opened, follow,
  view, texts_of, tagged, named_images, show, older, newer, find, find_loop, Prompt, PromptHistory,
  State, Event, record_prompt, run, reduce_history, recalls, shows_recalled, prompts_loaded,
  recall_older, recall_newer, search_open, search_type, search_accept, submit, session_opened,
}
use uagent_harness.Tui.History.Ranges.{IsInRange, IsCursor, IsSearch}
use uagent_harness.Tui.History.Runs.{run-IsInRange}

abbrev empty : PromptHistory
empty = record {
  file = [];
  local = [];
  workspace = [];
  unsent = [];
  entries = [];
  from_file = 0;
  cursor = 0;
  browsing = false;
  recalled = [];
  search = none;
}

abbrev fresh : State
fresh = record { session_id = []; workspace = []; shell = false; attached = []; history = empty }

-- unicode.ToLower on ASCII.
abbrev lower : ℕ → ℕ
lower c = if leb 65 c && leb c 90 then c + 32 else c

abbrev of_w : Text → Prompt
of_w text = record { workspace = codes "/w"; text = text }

abbrev session : List Event
session =
    prompts_loaded (
      of_w (codes "Fix")
      ∷ record { workspace = codes "/v"; text = codes "no" }
      ∷ of_w (codes "ls")
      ∷ [])
    ∷ session_opened (codes "s") (codes "/w")
    ∷ submit (codes " test ")
    ∷ []

abbrev entries_of : Option State → List Text
entries_of none = []
entries_of (some s) = s.history.entries

abbrev recalled_of : Option State → Text
recalled_of none = []
recalled_of (some s) = s.history.recalled

shows_workspace :
    entries_of (run lower fresh session) ≡ codes "Fix" ∷ codes "ls" ∷ codes "test" ∷ []
unfolding run reduce_history on_history remember text_eq trim_space trim_end trim_start is_space
    is_command all_name command_name cut_prefix reset add repeats opened follow view texts_of tagged
    named_images join_images has_infix has_prefix
shows_workspace = refl

abbrev searched : List Event
searched =
    prompts_loaded (of_w (codes "Fix") ∷ of_w (codes "ls") ∷ [])
    ∷ session_opened (codes "s") (codes "/w")
    ∷ search_open []
    ∷ search_type (codes "f")
    ∷ search_accept
    ∷ recall_newer
    ∷ recall_older
    ∷ []

finds_again : recalled_of (run lower fresh searched) ≡ codes "Fix"
unfolding run reduce_history on_history remember opened follow text_eq view reset texts_of contains
    has_infix has_prefix cut_prefix show older newer find find_loop display split_images
finds_again = refl

records_later :
    reduce_history lower
      (record fresh { history = record empty { unsent = codes "a" ∷ [] } })
      (session_opened (codes "s") (codes "/w"))
    ≡ some (
      record fresh {
        session_id = codes "s";
        workspace = codes "/w";
        history = record empty { workspace = codes "/w" };
      },
      record_prompt (codes "s") (codes "/w") (codes "a") ∷ [],
    )
unfolding reduce_history remember opened follow text_eq view reset texts_of
records_later = refl

recalls_nothing : recalls fresh [] true false ≡ false
unfolding recalls
recalls_nothing = refl

shows_draft : shows_recalled fresh (codes "a") ≡ false
unfolding shows_recalled text_eq
shows_draft = refl

abbrev image : Image
image = record {
  label = codes "[Image #1]";
  ref = codes "0123456789abcdef0123456789abcdef0123456789abcdef0123456789abcdef.png";
  width = 12;
  height = 34;
}

splits_images :
    split_images (join_images (codes "see [Image #1]\n") (image ∷ []))
    ≡ (codes "see [Image #1]", image ∷ [])
unfolding split_images join_images trim_end trim_start tag tag_lines decimal digits tags_loop
    parse_tag some_of span number_of atoi cut_prefix trim_space is_space split_newlines has_infix
    has_prefix
splits_images = refl

run-IsInRange_example :
    (last : State) × (run lower fresh searched ≡ some last) × IsInRange last.history
unfolding IsInRange IsCursor IsSearch
run-IsInRange_example = run-IsInRange lower fresh searched (tt, tt)

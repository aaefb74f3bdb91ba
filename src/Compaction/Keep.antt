-- ===== src/Compaction/Keep.antt =====
-- internal/compaction/keep.go: the user messages that a compaction keeps.
pub mod Newest
use mathlib.Core.List.{reverse}
use uagent_harness.Prelude.{
  ℕ, ◌+◌, ◌-◌, Bool, true, false, not, ◌&&◌, ◌||◌, List, [], ◌∷◌, ◌==◌, ltb, if◌then◌else◌, Text,
}
use uagent_harness.Compaction.Item.{Item, Body, message, is_user_message, is_heartbeat, text_of}
use uagent_harness.Compaction.Tokens.{approx_tokens, truncate_middle}

-- A message that is typed by the user, and not a heartbeat.
unfoldable pub is_wanted : Item → Bool
is_wanted item = not (not (is_user_message item) || is_heartbeat item)

abbrev pub with_text : Body → Text → Body
with_text (message role old) text = message role text
with_text other text = other

unfoldable pub truncated : Item → ℕ → Item
truncated item n = record item {
  body = with_text item.body (truncate_middle (text_of item.body) n);
}

abbrev pub message_tokens : Item → ℕ
message_tokens item = approx_tokens (text_of item.body)

-- The loop over the items from the last on; `picked` holds the messages so far, the oldest first.
unfoldable pub kept_loop : List Item → ℕ → List Item → List Item
kept_loop [] remaining picked = picked
kept_loop (item ∷ earlier) remaining picked =
    let skipped = kept_loop earlier remaining picked in
    let cut = kept_loop earlier 0 (truncated item remaining ∷ picked) in
    let whole = kept_loop earlier (remaining - message_tokens item) (item ∷ picked) in
    if remaining == 0
    then picked
    else if not (is_wanted item)
    then skipped
    else if ltb remaining (message_tokens item)
    then cut
    else whole

unfoldable pub kept : List Item → ℕ → List Item
unfolding kept_loop
kept covered max_tokens = kept_loop (reverse covered) max_tokens []

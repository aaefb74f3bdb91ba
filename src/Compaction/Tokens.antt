-- ===== src/Compaction/Tokens.antt =====
-- internal/compaction/estimate.go, and the token counts and the truncation of keep.go. A text's
-- length in bytes is that of its UTF-8 form.
pub mod Middle
use mathlib.Core.List.{reverse}
use uagent_harness.Prelude.{
  ℕ, zero, suc, ◌+◌, ◌-◌, ◌*◌, ◌/◌, ◌%◌, ◌&&◌, Option, none, some, List, [], ◌∷◌, ◌++◌, ◌==◌, ltb,
  leb, if◌then◌else◌, Text, codes,
}
use uagent_harness.Compaction.Item.{
  Item, Body, message, tool_call, tool_result, reasoning, configuration, other_body, Output,
  text_output, image_output, model_generated,
}

-- The bytes of a code point in UTF-8.
unfoldable pub width : ℕ → ℕ
width c = if ltb c 128 then 1 else if ltb c 2048 then 2 else if ltb c 65536 then 3 else 4

unfoldable pub byte_length : Text → ℕ
byte_length [] = 0
byte_length (c ∷ s) = width c + byte_length s

abbrev pub bytes_per_token : ℕ
bytes_per_token = 4

abbrev pub tokens_of_bytes : ℕ → ℕ
tokens_of_bytes n = (n + bytes_per_token - 1) / bytes_per_token

unfoldable pub approx_tokens : Text → ℕ
approx_tokens text = tokens_of_bytes (byte_length text)

-- The decimal digits of a number, from the last one; the fuel is the number itself.
unfoldable pub digits : ℕ → ℕ → Text
digits zero n = []
digits (suc f) n =
    let rest = digits f (n / 10) in if ltb n 10 then (48 + n) ∷ [] else (48 + n % 10) ∷ rest

unfoldable pub decimal : ℕ → Text
decimal n = reverse (digits (suc n) n)

abbrev pub ellipsis : Text
ellipsis = 8230 ∷ []

unfoldable pub truncated_mark : ℕ → Text
truncated_mark n = ellipsis ++ (decimal n ++ (codes " tokens truncated" ++ ellipsis))

-- The longest start of a text that takes at most `n` bytes.
unfoldable pub take_bytes : ℕ → Text → Text
take_bytes n [] = []
take_bytes n (c ∷ s) =
    let rest = take_bytes (n - width c) s in if ltb n (width c) then [] else c ∷ rest

-- The longest end of a text that takes at most `n` bytes.
unfoldable pub drop_bytes : ℕ → Text → Text
drop_bytes n [] = []
drop_bytes n (c ∷ s) =
    let rest = drop_bytes n s in if leb (byte_length (c ∷ s)) n then c ∷ s else rest

-- The text without its longest start of at most `n` bytes.
unfoldable pub after_bytes : ℕ → Text → Text
after_bytes n [] = []
after_bytes n (c ∷ s) =
    let rest = after_bytes (n - width c) s in if ltb n (width c) then c ∷ s else rest

-- The end that is kept, which starts no earlier than where the start that is kept ends.
unfoldable pub kept_end : ℕ → ℕ → Text → Text
kept_end left right text =
    let end = drop_bytes right text in
    if ltb (byte_length text - byte_length end) (byte_length (take_bytes left text))
    then after_bytes left text
    else end

unfoldable pub truncate_middle : Text → ℕ → Text
truncate_middle [] max_tokens = []
truncate_middle (c ∷ s) max_tokens =
    let text = c ∷ s in
    let max_bytes = max_tokens * bytes_per_token in
    let left = max_bytes / 2 in
    if ltb 0 max_tokens && leb (byte_length text) max_bytes
    then text
    else if max_bytes == 0
    then truncated_mark (approx_tokens text)
    else take_bytes left text
      ++ (truncated_mark (tokens_of_bytes (byte_length text - max_bytes))
          ++ kept_end left (max_bytes - left) text)

abbrev pub image_bytes : ℕ
image_bytes = 7373

abbrev output_size : Output → ℕ
output_size o = elim o.kind [ image_output ↦ image_bytes | text_output ↦ byte_length o.value ]

unfoldable pub output_bytes : List Output → ℕ
output_bytes [] = 0
output_bytes (o ∷ outputs) = output_size o + output_bytes outputs

abbrev pub reasoning_bytes : Option Text → ℕ
reasoning_bytes none = 0
reasoning_bytes (some encrypted) = byte_length encrypted * 3 / 4 - 650

abbrev body_bytes : Body → ℕ
body_bytes (message role text) = byte_length text
body_bytes (tool_call id name arguments) = byte_length name + byte_length arguments
body_bytes (tool_result id output) = byte_length id + output_bytes output
body_bytes (reasoning encrypted) = reasoning_bytes encrypted
body_bytes (configuration effort) = 0
body_bytes other_body = 0

unfoldable pub item_bytes : Item → ℕ
item_bytes item = body_bytes item.body

unfoldable pub estimate_tokens : List Item → ℕ
estimate_tokens [] = 0
estimate_tokens (item ∷ items) = tokens_of_bytes (item_bytes item) + estimate_tokens items

-- The items after the last one that the model made.
unfoldable pub added_since : List Item → List Item → List Item
added_since [] added = added
added_since (item ∷ earlier) added =
    let more = added_since earlier (item ∷ added) in if model_generated item then added else more

-- A last response that reported no usage has the total 0.
unfoldable pub in_use : List Item → ℕ → ℕ
in_use view last_total =
    if last_total == 0
    then estimate_tokens view
    else last_total + estimate_tokens (added_since (reverse view) [])

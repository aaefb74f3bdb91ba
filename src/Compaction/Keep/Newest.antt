-- ===== src/Compaction/Keep/Newest.antt =====
-- internal/compaction/keep.go: `kept` takes the newest messages that fit.
use mathlib.Core.List.{reverse}
use uagent_harness.Prelude.{ℕ, ◌+◌, ◌-◌, ◌≤◌, ◌<◌, ◌≡◌, List, [], ◌∷◌, ◌++◌, keep_if, Text}
use uagent_harness.Compaction.Item.{Item, Role, message}
use uagent_harness.Compaction.Tokens.Middle.{Middle}
use uagent_harness.Compaction.Keep.{is_wanted, message_tokens}

abbrev pub tokens_of : List Item → ℕ
tokens_of [] = 0
tokens_of (item ∷ items) = message_tokens item + tokens_of items

-- The message with the middle of its text replaced by the mark, so that what is left of the text takes
-- at most `n` tokens.
pub data CutTo (item : Item) (n : ℕ) (cut : Item) : Type 0 where
  cut_text :
      (role : Role) (text new : Text)
      → item.body ≡ message role text
      → cut ≡ record item { body = message role new }
      → Middle text n new
      → CutTo item n cut

-- `picked` are the newest of the messages that take at most `n` tokens: all of them, or the last
-- ones that take `n`, or the last ones that take less, after one that would be too much and is cut.
pub data Newest (messages : List Item) (n : ℕ) (picked : List Item) : Type 0 where
  all_fit : picked ≡ messages → tokens_of messages ≤ n → Newest messages n picked
  full :
      (older : List Item)
      → messages ≡ older ++ picked
      → tokens_of picked ≡ n
      → Newest messages n picked
  first_cut :
      (older whole : List Item) (item cut : Item)
      → messages ≡ older ++ (item ∷ whole)
      → picked ≡ cut ∷ whole
      → CutTo item (n - tokens_of whole) cut
      → tokens_of whole < n
      → n < message_tokens item + tokens_of whole
      → Newest messages n picked

abbrev wanted : List Item → List Item
wanted rest = keep_if is_wanted (reverse rest)

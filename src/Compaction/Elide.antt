-- ===== src/Compaction/Elide.antt =====
-- internal/compaction/elide.go, with Argument's and ResultText's callers of facts.go, clip and
-- oneLine of ledger.go, and Commas of stats.go: old tool outputs as stubs.
pub mod Calls
pub mod Old
pub mod Same
use mathlib.Core.List.{reverse}
use uagent_harness.Prelude.{
  ℕ, zero, suc, ◌+◌, ◌-◌, Bool, true, false, not, ◌&&◌, ◌||◌, Option, none, some, List, [], ◌∷◌,
  ◌++◌, ◌==◌, ltb, leb, if◌then◌else◌, Text, codes, text_eq, contains, join_words, trim_space,
  is_space, keep_if,
}
use uagent_harness.Compaction.Item.{
  Item, Body, message, tool_call, tool_result, reasoning, configuration, other_body, Output,
  text_output, image_output, result_id, call_id, or_text, other_type,
}
use uagent_harness.Compaction.Tokens.{byte_length, take_bytes, decimal, estimate_tokens, ellipsis}

-- What libraries give: an argument of a tool call's JSON, the exit code in the last line of a
-- text that states one, and the quoted form of a text (`%#q`).
pub record Readers : Type 0 where
  pub argument : Text → Text → Text
  pub exit_code : Text → Option Text
  pub quoted : Text → Text

-- A tool call's name and arguments.
abbrev pub Call : Type 0
Call = Text × Text

abbrev pub named : Text → Body → Option Call
named id (tool_call other name arguments) =
    if text_eq other id then some (name, arguments) else none
named id _ = none

abbrev pub or_call : Option Call → Option Call → Option Call
or_call (some c) other = some c
or_call none other = other

-- The last call with an id, as the source's map holds it.
unfoldable pub call_of : List Item → Text → Option Call
call_of [] id = none
call_of (item ∷ items) id = or_call (call_of items id) (named id item.body)

-- Newlines as an arrow between blanks.
abbrev pub newline_arrow : Text
newline_arrow = 32 ∷ 0x23ce ∷ 32 ∷ []

pub with_arrows : Text → Text
with_arrows [] = []
with_arrows (c ∷ s) = (if c == 10 then newline_arrow else c ∷ []) ++ with_arrows s

-- strings.Fields
pub fields : Text → Text → List Text
fields word [] = if text_eq word [] then [] else word ∷ []
fields word (c ∷ s) =
    let ended = fields [] s in
    let longer = fields (word ++ c ∷ []) s in
    if is_space c then (if text_eq word [] then ended else word ∷ ended) else longer

unfoldable pub one_line : Text → Text
unfolding with_arrows fields
one_line text = join_words (fields [] (with_arrows (trim_space text)))

-- A text of at most `n` bytes, with an ellipsis (of three) where it is cut.
unfoldable pub clip : Text → ℕ → Text
clip text n = if leb (byte_length text) n then text else take_bytes (n - 3) text ++ ellipsis

pub group_digits : Text → Text
group_digits (a ∷ b ∷ c ∷ d ∷ s) = a ∷ b ∷ c ∷ b',' ∷ group_digits (d ∷ s)
group_digits s = s

unfoldable pub commas : ℕ → Text
unfolding group_digits
commas n = reverse (group_digits (reverse (decimal n)))

abbrev text_value : Output → List Text
text_value o = elim o.kind [ text_output ↦ o.value ∷ [] | image_output ↦ [] ]

pub texts : List Output → List Text
texts [] = []
texts (o ∷ outputs) = text_value o ++ texts outputs

pub join_lines : List Text → Text
join_lines [] = []
join_lines (l ∷ []) = l
join_lines (l ∷ k ∷ ls) = l ++ (10 ∷ join_lines (k ∷ ls))

unfoldable pub result_text : List Output → Text
unfolding texts join_lines
result_text outputs = join_lines (texts outputs)

abbrev pub exit_note : Option Text → Text
exit_note none = []
exit_note (some code) = codes ", exit " ++ code

abbrev pub with_command : Readers → Text → Text → Text
with_command r [] [] = []
with_command r [] (c ∷ path) = b' ' ∷ c ∷ path
with_command r (c ∷ command) path = b' ' ∷ r.quoted (clip (one_line (c ∷ command)) 200)

module _ (readers : Readers) where
  unfoldable pub stub : Call → Text → List Output → Body
  stub (name, arguments) id outputs =
      let what =
        name
        ++ (with_command readers (readers.argument arguments (codes "command"))
              (readers.argument arguments (codes "path"))
            ++ exit_note (readers.exit_code (result_text outputs))) in
      let size =
        estimate_tokens
          (record { provider_id = []; type_of = other_type; body = tool_result id outputs } ∷ []) in
      tool_result id (
        record {
          kind = text_output;
          value =
              codes "[uah elided this output to save context: "
              ++ (what
                  ++ (codes ", "
                      ++ (commas size ++ codes " tokens. Run it again if you need it.]")));
        }
        ∷ [])

  abbrev elided_body : Body → Option Call → Bool → Body
  elided_body (tool_result id outputs) (some c) true = stub c id outputs
  elided_body body _ _ = body

  abbrev id_or_empty : Option Text → Text
  id_or_empty o = or_text o []

  -- The item as the model sees it; `items` are all of them.
  abbrev elided_item : List Item → List Text → Item → Item
  elided_item items ids item =
      let id = id_or_empty (result_id item.body) in
      record item { body = elided_body item.body (call_of items id) (contains ids id) }

  unfoldable pub elide_loop : List Item → List Text → List Item → List Item
  elide_loop all ids [] = []
  elide_loop all ids (item ∷ items) = elided_item all ids item ∷ elide_loop all ids items

  unfoldable pub elide : List Item → List Text → List Item
  elide items [] = items
  elide items (id ∷ ids) = elide_loop items (id ∷ ids) items

pub record Elision : Type 0 where
  pub after_calls : ℕ
  pub big_tokens : ℕ
  pub big_after_calls : ℕ

abbrev pub elide_min_tokens : ℕ
elide_min_tokens = 100

abbrev pub skill_use : Text
skill_use = codes "SkillUse"

abbrev pub one_if_call : Option Text → ℕ
one_if_call none = 0
one_if_call (some id) = 1

unfoldable pub count_calls : List Item → ℕ
count_calls [] = 0
count_calls (item ∷ items) = one_if_call (call_id item.body) + count_calls items

abbrev pub is_call_of : Text → Option Text → Bool
is_call_of id none = false
is_call_of id (some other) = text_eq other id

abbrev pub or_number : Option ℕ → Option ℕ → Option ℕ
or_number (some n) other = some n
or_number none other = other

-- How many tool calls come after the last call with an id: the source's n - 1 - after[id].
unfoldable pub calls_after : List Item → Text → Option ℕ
calls_after [] id = none
calls_after (item ∷ items) id =
    or_number (calls_after items id)
      (if is_call_of id (call_id item.body) then some (count_calls items) else none)

-- Whether an output with this age and size is elided.
unfoldable pub is_old : Elision → ℕ → ℕ → Bool
is_old e age tokens =
    (leb e.after_calls age
      || (ltb 0 e.big_tokens && ltb e.big_tokens tokens && leb e.big_after_calls age))
    && leb elide_min_tokens tokens

abbrev old_call : Elision → ℕ → Option Call → Option ℕ → Bool
old_call e tokens (some (name, arguments)) (some age) =
    not (text_eq name skill_use) && is_old e age tokens
old_call e tokens _ _ = false

abbrev to_elide : Elision → List Item → List Text → Item → Option Text → Bool
to_elide e view elided item none = false
to_elide e view elided item (some id) =
    old_call e (estimate_tokens (item ∷ [])) (call_of view id) (calls_after view id)
    && not (contains elided id)

unfoldable pub elidable_loop : Elision → List Item → List Text → List Item → List Text
elidable_loop e view elided [] = []
elidable_loop e view elided (item ∷ items) =
    let rest = elidable_loop e view elided items in
    if to_elide e view elided item (result_id item.body)
    then or_text (result_id item.body) [] ∷ rest
    else rest

unfoldable pub elidable : Elision → List Item → List Text → List Text
elidable e view elided = if e.after_calls == 0 then [] else elidable_loop e view elided view

-- The loop of `union`; `out` is also what the map holds.
unfoldable pub union : List Text → List Text → List Text
union out [] = out
union out (v ∷ values) = union (if contains out v then out else out ++ v ∷ []) values

abbrev result_in : List Text → Option Text → Bool
result_in ids none = false
result_in ids (some id) = contains ids id

unfoldable pub still_elided : List Item → List Text → List Text
still_elided [] ids = []
still_elided (item ∷ items) ids =
    let rest = still_elided items ids in
    if result_in ids (result_id item.body) then or_text (result_id item.body) [] ∷ rest else rest

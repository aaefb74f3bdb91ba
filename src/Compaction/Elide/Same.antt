-- ===== src/Compaction/Elide/Same.antt =====
-- internal/compaction/elide.go: which outputs `elide` replaces, by what, and what it leaves alone.
use uagent_harness.Prelude.{
  ℕ, ◌≡◌, true, false, none, some, List, [], ◌∷◌, ◌++◌, Text, codes, contains,
}
use uagent_harness.Compaction.Item.{
  Item, Body, Output, text_output, tool_result, result_id, other_type,
}
use uagent_harness.Compaction.Tokens.{estimate_tokens}
use uagent_harness.Compaction.Elide.{Readers, with_command, exit_note, result_text, commas}
use uagent_harness.Compaction.Elide.Calls.{NoCall, LastCall}

-- Why an item is left as it is: it is no tool result, it was not named, or it has no call.
pub data Untouched (all : List Item) (ids : List Text) (b : Body) : Type 0 where
  no_result : result_id b ≡ none → Untouched all ids b
  not_named : (id : Text) → result_id b ≡ some id → contains ids id ≡ false → Untouched all ids b
  no_call : (id : Text) → result_id b ≡ some id → NoCall all id → Untouched all ids b

-- The text in place of an output: the tool with its command or path and its exit code, and the size of
-- the item that held the output.
abbrev pub stub_text : Readers → Text → Text → List Output → Item → Text
stub_text readers name arguments outputs item =
    codes "[uah elided this output to save context: "
    ++ ((name
          ++ (with_command readers (readers.argument arguments (codes "command"))
                (readers.argument arguments (codes "path"))
              ++ exit_note (readers.exit_code (result_text outputs))))
        ++ (codes ", "
            ++ (commas (estimate_tokens (item ∷ []))
                ++ codes " tokens. Run it again if you need it.]")))

abbrev of_body : Body → Item
of_body b = record { provider_id = []; type_of = other_type; body = b }

-- An item as it was, or a tool result with a call and a named id whose output is one text.
pub data StubOf (readers : Readers) (all : List Item) (ids : List Text) (item : Item)
    : Item → Type 0 where
  unchanged : Untouched all ids item.body → StubOf readers all ids item item
  stubbed :
      (id name arguments : Text) (outputs : List Output) (later : ℕ)
      → item.body ≡ tool_result id outputs
      → contains ids id ≡ true
      → LastCall all id (name, arguments) later
      → StubOf readers all ids item (record item {
        body = tool_result id (
            record { kind = text_output; value = stub_text readers name arguments outputs item }
            ∷ []);
      })

-- Item by item.
pub data StubsOf (readers : Readers) (all : List Item) (ids : List Text)
    : List Item → List Item → Type 0 where
  nil : StubsOf readers all ids [] []
  cons :
      {item seen : Item} {items view : List Item}
      → StubOf readers all ids item seen
      → StubsOf readers all ids items view
      → StubsOf readers all ids (item ∷ items) (seen ∷ view)

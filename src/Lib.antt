-- ===== src/Lib.antt =====
-- uah, a terminal harness for coding agents: what decides whether a command runs and how, what reads
-- and applies a patch, what a compaction leaves of the model's history, and the state behind the
-- prompt history and the agent's questions, modelled from the Go source. Paths are from the repository's root.
--
-- The parts and how they interact. A shell command that the agent wants to run reaches
-- `Approver.Decide` of internal/approval. It splits the command into simple commands (a shell
-- parser's work, the parameter `Shell` here), asks internal/rules for the strictest rule on them,
-- and then runs the command in the sandbox, runs it outside, refuses it, or asks the user; an
-- answer may add an allow rule, which settles other prompts that are open. internal/cmdparse splits
-- a command's text into words and quotes words, for what the TUI shows. internal/patch
-- reads the text of apply_patch into hunks and applies them to files. When the context grows long,
-- internal/compaction replaces the older items of the model's history by a summary and stubs.
-- internal/tui/state reduces the user's keys and the session's events to a state and effects.
--
-- Prelude (with Tests, Lists, Texts, Spaces) has what the parts share: Boolean tests on numbers,
-- lists, texts as lists of code points (bytes, where the source goes by bytes), and the source's
-- uses of the packages strings and unicode.
--
-- Cmdparse.Shlex models internal/cmdparse/shlex.go: `split` (split), `split_word` (splitWord),
-- `double_quoted` (doubleQuoted), `quote`, `quoting_strategy`, `char_denies` and `join`. A loop over
-- an index into a text is recursion on the text that is left; where the source goes on by more than
-- one byte, the recursion is on fuel, one more than the length, and running out is the result
-- `no_fuel`. Words and Chunks have the lemmas, RoundTrip and Total the theorems.
--
-- Cmdparse.Operands models internal/cmdparse/operands.go (`positional_operands`,
-- `skip_flag_values`, `parse_grep_like` and the operands of awk, python, fd and find), with
-- `trim_at_connector` and `short_display_path` of parse.go. A loop that skips a flag's value goes on
-- by two arguments.
--
-- Rules models internal/rules/rules.go: `matches` (Rule.Matches), `may_match` (mayMatch),
-- `match_rule` (Policy.Match), `check` (Policy.Check), `forbids` (Policy.Forbids). A policy is its
-- list of rules. The scan of a command that does not split is the parameter `scan`.
--
-- Approval models internal/approval: approval.go (`decide`, `by_rule`, `prompt_for`,
-- `answer_decision`, `cannot_ask`, `forbids_unsplit`, `allow_prefix`), typed.go (`decide_typed`),
-- AskUnless of withdraw.go (`ask_unless`), and prefix.go in Approval.Prefix. While a
-- prompt is open, what happens is a list of events: a wake, with the rules of that moment, or the
-- answer. The end of the list with no answer is the outcome `waiting`. The goroutine, the channels
-- and the mutex of the source appear only as that order.
-- Approval.Mode models mode.go: `next` (Mode.Next), `sandbox_of` (Mode.Sandbox), `mode_for` and the
-- names. A mode is a text, as in the source, and the next one is none where the source would index out
-- of range.
--
-- Patch.Parse models internal/patch/parse.go and the update lines of update.go: the state machine
-- `process` over the modes of a parser, `header`, and `parse`, on top of Types (the data), Lines
-- (`update_hunk_line` of update.go) and Boundaries.
--
-- Patch.Update models the rest of update.go: `seek` and its matchers, `replacements`, and `updated`.
-- A loop over positions is recursion on how many positions there are.
--
-- Patch.Apply models Compute of apply.go over an overlay of changed files (`compute`, `read`),
-- Resolve, Paths and Summary, and what `write` leaves when every call succeeds. What the operating
-- system gives for a path is the parameter `Disk`.
--
-- Compaction models internal/compaction. An item is a record as the package llm has it; a length in
-- bytes is computed from the code points. Item has the tests on items, Tokens the estimates of
-- estimate.go and `truncate_middle` of keep.go, Keep is `kept` (Kept), Cover `coverable` and
-- `coverable_keeping` (compaction.go), Elide is elide.go with the texts that a stub needs, and
-- Record is a record's making and `apply`, with the result `out_of_range` where the source slices an
-- empty history. Tokens.Middle, Elide.Calls, Elide.Same, Elide.Old, Record.Paired and Record.Applies
-- have the proofs. JSON, SHA-256 and the readers of tool calls are the
-- fields of a parameter, `codec`. Summary is summary.go, with the requests that `summarize` sends as
-- a list and the model as a function of it; the four retries of the source bound its recursion.
-- Window is window.go and settings.go; what is not positive is 0 there.
--
-- Tui.History models history.go and historysearch.go of internal/tui/state: `on_history` (onHistory,
-- onSearch), `remember`, and `reduce_history`, which runs them in Reduce's order. A step is none where
-- the source indexes out of range. Tui.Questions models the picker of questions.go in the same way,
-- with the parallel slices as one list of slots. Images is internal/images/images.go, which it calls.
--
-- Patch.Write models Write, snapshot, restore, write and writeFile of internal/patch/apply.go over a
-- record of the operating system's calls, each of which can fail; Restore states what is assumed of
-- them.
--
-- Not modelled: the shell parser and the Starlark rules files, the write to the rules file, and
-- everything that runs processes, draws the terminal, or talks to a server.
pub mod Prelude
pub mod Cmdparse
pub mod Rules
pub mod Approval
pub mod Patch
pub mod Compaction
pub mod Images
pub mod Tui

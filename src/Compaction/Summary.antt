-- ===== src/Compaction/Summary.antt =====
-- internal/compaction/summary.go: the call that asks for a summary, and its retries with less
-- history. The model's answers are a parameter.
pub mod Trims
pub mod Calls
mod Samples
use uagent_harness.Prelude.{
  ℕ, zero, suc, ◌+◌, ◌-◌, ◌*◌, ◌/◌, Bool, true, false, ◌||◌, not, Option, none, some, List, [], ◌∷◌,
  ◌++◌, ◌==◌, ltb, leb, if◌then◌else◌, Text, codes, text_eq, length,
}
use uagent_harness.Compaction.Item.{Item, Body, message, system_role, user_text, message_type}
use uagent_harness.Compaction.Tokens.{estimate_tokens}
use uagent_harness.Compaction.Record.{detach_orphans}

abbrev pub overflow_retries : ℕ
overflow_retries = 4

abbrev pub system_text : Body → Option Text
system_text (message system_role text) = some text
system_text _ = none

abbrev pub without_system : Item → List Item → Option Text → Text × List Item
without_system item items (some text) = (text, items)
without_system item items none = ([], item ∷ items)

-- The system text, and the history without its message.
unfoldable pub split_system : List Item → Text × List Item
split_system [] = ([], [])
split_system (item ∷ items) = without_system item items (system_text item.body)

-- `default` is the embedded prompt.
unfoldable pub prompt_item : Text → Text → Item
prompt_item default prompt = user_text (if text_eq prompt [] then default else prompt)

unfoldable pub summary_request : Text → List Item → Text → Text × List Item
summary_request default view prompt =
    let (system, rest) = split_system view in (system, rest ++ prompt_item default prompt ∷ [])

-- The items from the first one on with which the rest is within the budget, `total` being the
-- estimate of all of them.
unfoldable pub trim_loop : List Item → ℕ → ℕ → List Item
trim_loop [] total budget = []
trim_loop (item ∷ []) total budget = item ∷ []
trim_loop (item ∷ next ∷ items) total budget =
    let rest = trim_loop (next ∷ items) (total - estimate_tokens (item ∷ [])) budget in
    if ltb budget total then rest else item ∷ next ∷ items

unfoldable pub trim : List Item → ℕ → List Item
trim items budget =
    let rest = trim_loop items (estimate_tokens items) budget in
    if length rest == length items then items else detach_orphans rest

-- What the call gives: a summary, or an error that may be that the context is too long.
pub data Reply : Type 0 where
  summary : Text → Reply
  overflow : Text → Reply
  failure : Text → Reply

pub data Summarized : Type 0 where
  done : Text → Summarized
  failed : Text → Summarized

-- One request: the instructions and the input.
abbrev pub Request : Type 0
Request = Text × List Item

-- Settings of the call that the loop reads.
pub record SummaryCall : Type 0 where
  pub window : ℕ
  pub prompt : Text

-- The model's answer to the requests so far, the last of them first.
abbrev pub Model : Type 0
Model = List Request → Reply

abbrev pub within : List Item → ℕ → List Item
within history budget = if budget == 0 then history else trim history budget

abbrev pub last_reply : List Request → Reply → Summarized × List Request
last_reply requests (summary text) = (done text, requests)
last_reply requests (overflow e) = (failed e, requests)
last_reply requests (failure e) = (failed e, requests)

-- With what another request would give.
abbrev pub next_reply :
    List Item → List Request → Summarized × List Request → Reply → Summarized × List Request
next_reply trimmed requests again (overflow e) =
    if leb (length trimmed) 1 then (failed e, requests) else again
next_reply trimmed requests again reply = last_reply requests reply

abbrev pub request_of : Text → List Item → Item → Request
request_of system trimmed prompt = (system, trimmed ++ prompt ∷ [])

module _ (model : Model) (system : Text) (history : List Item) (prompt : Item) where
  -- The loop with some retries left, and the requests so far.
  unfoldable pub call_loop : ℕ → ℕ → List Request → Summarized × List Request
  call_loop zero budget sent =
      let requests = request_of system (within history budget) prompt ∷ sent in
      last_reply requests (model requests)
  call_loop (suc retries) budget sent =
      let trimmed = within history budget in
      let requests = request_of system trimmed prompt ∷ sent in
      let again = call_loop retries (estimate_tokens trimmed * 3 / 4) requests in
      next_reply trimmed requests again (model requests)

abbrev pub system_item : Text → Item
system_item text = record {
  provider_id = [];
  type_of = message_type;
  body = message system_role text;
}

-- The summary or the error, with the requests that were sent.
unfoldable pub summarize : Model → Text → SummaryCall → List Item → Summarized × List Request
summarize model default call view =
    let (system, history) = split_system view in
    let prompt = prompt_item default call.prompt in
    let budget =
      call.window - estimate_tokens (prompt ∷ []) - estimate_tokens (system_item system ∷ []) in
    call_loop model system history prompt overflow_retries budget []

-- ===== src/Compaction/Summary/Samples.antt =====
-- internal/compaction/summary.go: a model that overflows once.
use uagent_harness.Compaction.Tokens.{byte_length, estimate_tokens, item_bytes, width}
use uagent_harness.Prelude.{◌≡◌, refl, List, [], ◌∷◌, ◌++◌, codes, ◌⊎◌, text_eq}
use uagent_harness.Compaction.Item.{Item, user_text}
use uagent_harness.Compaction.Record.{detach_orphans, detach_loop}
use uagent_harness.Compaction.Summary.{
  trim, summary_request, split_system, prompt_item, Model, summary, overflow, request_of,
  SummaryCall, summarize, done, system_item, call_loop, trim_loop,
}
use uagent_harness.Compaction.Summary.Trims.{Fits, trim-Fits}
use uagent_harness.Compaction.Summary.Calls.{IsOutcome, summarize-IsOutcome}

abbrev view : List Item
view = system_item (codes "sys") ∷ user_text (codes "aaaaaaaa") ∷ user_text (codes "bbbb") ∷ []

abbrev history : List Item
history = user_text (codes "aaaaaaaa") ∷ user_text (codes "bbbb") ∷ []

-- Overflows at first.
abbrev model : Model
model [] = overflow []
model (r ∷ []) = overflow (codes "too long")
model (r ∷ s ∷ requests) = summary (codes "short")

abbrev call : SummaryCall
call = record { window = 100; prompt = codes "P" }

requests_all :
    summary_request (codes "D") view [] ≡ (codes "sys", history ++ user_text (codes "D") ∷ [])
unfolding summary_request split_system prompt_item text_eq
requests_all = refl

trims_first : trim history 2 ≡ user_text (codes "bbbb") ∷ []
unfolding trim trim_loop estimate_tokens item_bytes byte_length width detach_orphans detach_loop
trims_first = refl

retries : summarize model (codes "D") call view ≡ (
  done (codes "short"),
  request_of (codes "sys") (user_text (codes "bbbb") ∷ []) (user_text (codes "P"))
      ∷ request_of (codes "sys") history (user_text (codes "P"))
      ∷ [],
)
unfolding summarize call_loop estimate_tokens item_bytes prompt_item byte_length text_eq width
    split_system trim trim_loop detach_orphans detach_loop
retries = refl

trim-Fits_example :
    (kept : List Item) × Fits history 2 kept
    × (((kept ≡ history) × (trim history 2 ≡ history)) ⊎ (trim history 2 ≡ detach_orphans kept))
trim-Fits_example = trim-Fits history 2

summarize-IsOutcome_example :
    let (system, items) = split_system view in
    IsOutcome model system items
      (prompt_item (codes "D") (codes "P"))
      5
      (summarize model (codes "D") call view)
summarize-IsOutcome_example = summarize-IsOutcome model (codes "D") call view

-- ===== src/Compaction/Summary/Calls.antt =====
-- internal/compaction/summary.go: the requests that a summary takes.
use uagent_harness.Prelude.{
  ℕ, zero, suc, ◌+◌, ◌*◌, ◌/◌, ◌≤◌, ◌≡◌, refl, subst, inl, inr, ◌⊎◌, List, [], ◌∷◌, ◌++◌, ◌==◌, leb,
  arith, Text, length, All, Bool-cases,
}
use uagent_harness.Compaction.Item.{Item}
use uagent_harness.Compaction.Tokens.{estimate_tokens}
use uagent_harness.Compaction.Record.{detach_orphans}
use uagent_harness.Compaction.Summary.{
  Reply, summary, overflow, failure, Summarized, done, failed, Request, request_of, SummaryCall,
  Model, within, last_reply, next_reply, call_loop, split_system, prompt_item, summarize,
  overflow_retries,
}
use uagent_harness.Compaction.Summary.Trims.{trim-Fits}

-- The last items of the history, where results without their call are notes when there are fewer.
abbrev pub IsRecent : List Item → List Item → Type 0
IsRecent history sent =
    (sent ≡ history)
    ⊎ ((dropped kept : List Item) × (history ≡ dropped ++ kept) × (sent ≡ detach_orphans kept))

within-IsRecent : (history : List Item) (budget : ℕ) → IsRecent history (within history budget)
within-IsRecent history budget = elim (Bool-cases (budget == 0)) [
  | inl e ↦ rw e (inl refl)
  | inr e ↦
      let (kept, (dropped, eq, small, needed, left), t) = trim-Fits history budget in
      rw e (elim t [ inl (whole, same) ↦ inl same | inr same ↦ inr (dropped, kept, eq, same) ])
]

-- A request with the system text, recent history, and the prompt as its last item.
abbrev pub IsRequest : Text → List Item → Item → Request → Type 0
IsRequest system history prompt r =
    (r.0 ≡ system) × ((sent : List Item) × (r.1 ≡ sent ++ prompt ∷ []) × IsRecent history sent)

-- The summary is the answer to the last request.
abbrev pub Answers : Model → Summarized → List Request → Type 0
Answers model (done text) requests = model requests ≡ summary text
Answers model (failed e) requests = (model requests ≡ overflow e) ⊎ (model requests ≡ failure e)

module _ (model : Model) (system : Text) (history : List Item) (prompt : Item) where
  -- A result after at least one request, and at most `n`, none but good ones.
  abbrev pub IsOutcome : ℕ → Summarized × List Request → Type 0
  IsOutcome n (result, requests) =
      All (IsRequest system history prompt) requests
      × (1 ≤ length requests)
      × (length requests ≤ n)
      × Answers model result requests

  last_reply-Answers :
      (requests : List Request) (r : Reply)
      → model requests ≡ r
      → Answers model (last_reply requests r).0 requests × ((last_reply requests r).1 ≡ requests)
  last_reply-Answers requests (summary text) e = (e, refl)
  last_reply-Answers requests (overflow x) e = (inl e, refl)
  last_reply-Answers requests (failure x) e = (inr e, refl)

  last_reply-IsOutcome :
      (n : ℕ) (requests : List Request) (r : Reply)
      → All (IsRequest system history prompt) requests
      → 1 ≤ length requests
      → length requests ≤ n
      → model requests ≡ r
      → IsOutcome n (last_reply requests r)
  last_reply-IsOutcome n requests (summary text) all lo hi e = (all, lo, hi, e)
  last_reply-IsOutcome n requests (overflow x) all lo hi e = (all, lo, hi, inl e)
  last_reply-IsOutcome n requests (failure x) all lo hi e = (all, lo, hi, inr e)

  next_reply-IsOutcome :
      (n : ℕ) (trimmed : List Item) (requests : List Request) (again : Summarized × List Request)
      (r : Reply)
      → All (IsRequest system history prompt) requests
      → 1 ≤ length requests
      → length requests ≤ n
      → model requests ≡ r
      → IsOutcome n again
      → IsOutcome n (next_reply trimmed requests again r)
  next_reply-IsOutcome n trimmed requests again (summary text) all lo hi e k = (all, lo, hi, e)
  next_reply-IsOutcome n trimmed requests again (failure x) all lo hi e k = (all, lo, hi, inr e)
  next_reply-IsOutcome n trimmed requests again (overflow x) all lo hi e k =
      elim (Bool-cases (leb (length trimmed) 1)) [
        | inl l ↦ rw l (all, lo, hi, inl e)
        | inr l ↦ rw l k
      ]

  request_of-IsRequest :
      (budget : ℕ)
      → IsRequest system history prompt (request_of system (within history budget) prompt)
  request_of-IsRequest budget =
      (refl, (within history budget, refl, within-IsRecent history budget))

  call_loop-IsOutcome :
      (retries budget : ℕ) (sent : List Request)
      → All (IsRequest system history prompt) sent
      → IsOutcome
          (suc retries + length sent)
          (call_loop model system history prompt retries budget sent)
  unfolding call_loop
  call_loop-IsOutcome zero budget sent all =
      last_reply-IsOutcome _ _ _ (request_of-IsRequest budget, all) (omega arith) (omega arith) refl
  call_loop-IsOutcome (suc retries) budget sent all =
      let trimmed = within history budget in
      let next = estimate_tokens trimmed * 3 / 4 in
      let requests = request_of system trimmed prompt ∷ sent in
      let all' : All (IsRequest system history prompt) requests =
        (request_of-IsRequest budget, all) in
      next_reply-IsOutcome _ trimmed _ _ _ all' (omega arith) (omega arith) refl (
        subst (λ n. IsOutcome n (call_loop model system history prompt retries next requests))
          (omega arith) (call_loop-IsOutcome retries next requests all'))

-- A summary takes at least one request and at most five. Each has the system text of the view, the
-- last items of the rest, and the prompt as the last item; and the result is the answer to the last
-- request: its summary, or the error that it was.
pub summarize-IsOutcome :
    (model : Model) (default : Text) (call : SummaryCall) (view : List Item)
    → let (system, history) = split_system view in
      IsOutcome model system history
        (prompt_item default call.prompt)
        5
        (summarize model default call view)
unfolding summarize
summarize-IsOutcome model default call view =
    let (system, history) = split_system view in
    call_loop-IsOutcome model system history (prompt_item default call.prompt) overflow_retries _ []
      tt

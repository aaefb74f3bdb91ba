-- ===== src/Tui/History/Runs.antt =====
-- internal/tui/state/history.go and historysearch.go: no event makes the history panic.
use uagent_harness.Prelude.{
  ℕ, ◌≡◌, refl, Bool, true, false, ◌&&◌, ◌||◌, not, Option, none, some, List, [], ◌∷◌,
  if◌then◌else◌, Text, text_eq, trim_space, inl, inr, Bool-cases, map,
}
use uagent_harness.Tui.History.{
  HistorySearch, PromptHistory, State, Event, Effect, Step, opened, with_history, recorded,
  remembered, remember, on_search, on_history, on_event, with_effects, reduce_history, run,
  is_command, reset, add, prompts_loaded, recall_older, recall_newer, search_open, search_type,
  search_clear, search_accept, search_cancel, submit, steer, draft_cleared, session_opened,
  composer_changed, search_move, joined, tagged,
}
use uagent_harness.Tui.History.Ranges.{
  IsInRange, IsSearch, GoesOn, older-GoesOn, newer-GoesOn, view-IsInRange, follow-IsInRange,
  reset-IsInRange, searching-GoesOn,
}

recorded-IsInRange :
    (s : State) (text : Text) (local : Bool) (shown : Text)
    → IsInRange s.history
    → IsInRange (recorded s text local shown).0.history
unfolding IsInRange
recorded-IsInRange s text local shown h =
    elim (Bool-cases (local || (not s.shell && is_command text))) [
      | inl e ↦ rw e h
      | inr e ↦ elim (Bool-cases (text_eq s.session_id [])) [
        | inl k ↦ rw (e, k) h
        | inr k ↦ rw (e, k) h
      ]
    ]

remembered-IsInRange :
    (s : State) (local : Bool) (text : Text)
    → IsInRange s.history
    → IsInRange (remembered s local text).0.history
remembered-IsInRange s local text h = elim (Bool-cases (text_eq text [])) [
  | inl e ↦ rw e h
  | inr e ↦
      let kept =
        recorded-IsInRange
          (with_history s (reset (add s.history (if s.shell then b'!' ∷ text else tagged s text))))
          text local (if s.shell then b'!' ∷ text else text) (reset-IsInRange _) in
      rw e kept
]

opened-IsInRange :
    (id workspace : Text) (h : PromptHistory) → IsInRange h → IsInRange (opened id workspace h).0
unfolding opened IsInRange
opened-IsInRange id workspace h k =
    follow-IsInRange workspace (record h { local = map (joined workspace) h.local }) k

remember-IsInRange :
    (s : State) (ev : Event) → IsInRange s.history → IsInRange (remember s ev).0.history
unfolding remember
remember-IsInRange s (submit text) h = remembered-IsInRange s false (trim_space text) h
remember-IsInRange s (steer text) h = remembered-IsInRange s false (trim_space text) h
remember-IsInRange s (draft_cleared draft) h = remembered-IsInRange s true (trim_space draft) h
remember-IsInRange s (session_opened id workspace) h = opened-IsInRange id workspace s.history h
remember-IsInRange s (prompts_loaded p) h = h
remember-IsInRange s recall_older h = h
remember-IsInRange s recall_newer h = h
remember-IsInRange s (search_open draft) h = h
remember-IsInRange s (search_type text) h = h
remember-IsInRange s search_clear h = h
remember-IsInRange s (search_move older) h = h
remember-IsInRange s search_accept h = h
remember-IsInRange s search_cancel h = h
remember-IsInRange s (composer_changed shell attached) h = h

module _ (lower : ℕ → ℕ) where
  on_search-GoesOn :
      (s : State) (ev : Event) (o : Option HistorySearch)
      → IsInRange s.history
      → IsSearch s.history.entries o
      → GoesOn (on_search lower s ev o)
  unfolding GoesOn IsInRange IsSearch
  on_search-GoesOn s ev (some search) h q = searching-GoesOn lower s search ev h q
  on_search-GoesOn s (search_open draft) none (c, q) k = (c, (tt, tt))
  on_search-GoesOn s (search_type text) none h k = h
  on_search-GoesOn s search_clear none h k = h
  on_search-GoesOn s (search_move older) none h k = h
  on_search-GoesOn s search_accept none h k = h
  on_search-GoesOn s search_cancel none h k = h
  on_search-GoesOn s (prompts_loaded p) none h k = h
  on_search-GoesOn s recall_older none h k = h
  on_search-GoesOn s recall_newer none h k = h
  on_search-GoesOn s (submit text) none h k = h
  on_search-GoesOn s (steer text) none h k = h
  on_search-GoesOn s (draft_cleared text) none h k = h
  on_search-GoesOn s (session_opened id workspace) none h k = h
  on_search-GoesOn s (composer_changed shell attached) none h k = h

  open_search-GoesOn :
      (s : State) (ev : Event)
      → IsInRange s.history
      → GoesOn (on_search lower s ev s.history.search)
  unfolding IsInRange
  open_search-GoesOn s ev (c, q) = on_search-GoesOn s ev s.history.search (c, q) q

  on_event-GoesOn : (s : State) (ev : Event) → IsInRange s.history → GoesOn (on_event lower s ev)
  unfolding on_history GoesOn
  on_event-GoesOn s (session_opened id workspace) h = h
  on_event-GoesOn s (composer_changed shell attached) h = h
  on_event-GoesOn s (prompts_loaded prompts) h = view-IsInRange _
  on_event-GoesOn s recall_older h = older-GoesOn s h
  on_event-GoesOn s recall_newer h = newer-GoesOn s h
  on_event-GoesOn s (search_open draft) h = open_search-GoesOn s (search_open draft) h
  on_event-GoesOn s (search_type text) h = open_search-GoesOn s (search_type text) h
  on_event-GoesOn s search_clear h = open_search-GoesOn s search_clear h
  on_event-GoesOn s (search_move older) h = open_search-GoesOn s (search_move older) h
  on_event-GoesOn s search_accept h = open_search-GoesOn s search_accept h
  on_event-GoesOn s search_cancel h = open_search-GoesOn s search_cancel h
  on_event-GoesOn s (submit text) h = open_search-GoesOn s (submit text) h
  on_event-GoesOn s (steer text) h = open_search-GoesOn s (steer text) h
  on_event-GoesOn s (draft_cleared text) h = open_search-GoesOn s (draft_cleared text) h

  with_effects-GoesOn :
      (effects : List Effect) (r : Step) → GoesOn r → GoesOn (with_effects lower effects r)
  unfolding GoesOn
  with_effects-GoesOn effects (some (s, more)) h = h
  with_effects-GoesOn effects none h = h

  reduce_history-GoesOn :
      (s : State) (ev : Event) → IsInRange s.history → GoesOn (reduce_history lower s ev)
  unfolding reduce_history
  reduce_history-GoesOn s ev h =
      with_effects-GoesOn (remember s ev).1 (on_event lower (remember s ev).0 ev)
        (on_event-GoesOn (remember s ev).0 ev (remember-IsInRange s ev h))

-- From a history whose cursor and search are in range, no list of events makes the history panic by
-- an index out of range, whatever the other handlers do to the composer, and after all of them the
-- cursor and the search are in range.
pub run-IsInRange :
    (lower : ℕ → ℕ) (s : State) (events : List Event)
    → IsInRange s.history
    → (last : State) × (run lower s events ≡ some last) × IsInRange last.history
unfolding run GoesOn
run-IsInRange lower s [] h = (s, refl, h)
run-IsInRange lower s (ev ∷ events) h =
    goes (λ next k. run-IsInRange lower next events k) (reduce_history lower s ev)
      (reduce_history-GoesOn lower s ev h)
  where
    goes :
        ((next : State)
          → IsInRange next.history
          → (last : State) × (run lower next events ≡ some last) × IsInRange last.history)
        → (r : Step) → GoesOn r
        → (last : State) × (elim r [ none ↦ none | some (next, effects) ↦ run lower next events ]
            ≡ some last)
          × IsInRange last.history
    goes rest none k = absurd k
    goes rest (some (next, effects)) k = rest next k

-- ===== src/Tui/History/Ranges.antt =====
-- internal/tui/state/history.go and historysearch.go: the indexes stay within the entries.
use mathlib.Core.List.{reverse, reverse-cons}
use uagent_harness.Prelude.{
  ℕ, suc, ◌+◌, ◌-◌, ◌<◌, ◌≡◌, ◌≢◌, refl, ◌∙◌, sym, ap, subst, Bool, true, false, not, ◌&&◌, ◌||◌,
  inl, inr, Option, none, some, List, [], ◌∷◌, ◌==◌, leb, arith, Text, codes, text_eq, contains,
  has_infix, cut_prefix, map, length, length-append, get_elem?, get_elem-some, All-get, All,
  All-map, Bool-cases,
}
use uagent_harness.Images.{display}
use uagent_harness.Tui.History.{
  SearchStatus, search_idle, search_match, search_no_match, HistorySearch, PromptHistory, State,
  Event, Step, reset, view, follow, with_command, show, with_history, show_entry, older_from, older,
  newer_from, newer, restore, with_search, move_to, move, accept_at, is_match, move_search,
  find_loop, with_matches, find, accepted, searching, prompts_loaded, recall_older, recall_newer,
  search_open, search_type, search_clear, search_accept, search_cancel, submit, steer,
  draft_cleared, session_opened, composer_changed, search_move,
}

-- The match that is shown is one of the matches.
abbrev HasMatch : SearchStatus → ℕ → List ℕ → Type 0
HasMatch search_match at matches = at < length matches
HasMatch _ at matches = Unit

unfoldable pub IsSearch : List Text → Option HistorySearch → Type 0
IsSearch entries none = Unit
IsSearch entries (some search) =
    All (λ i. i < length entries) search.matches × HasMatch search.status search.at search.matches

unfoldable pub IsCursor : List Text → Bool → ℕ → Type 0
IsCursor entries true cursor = cursor < length entries
IsCursor entries false cursor = Unit

-- The cursor and the matches of a search are places of entries.
unfoldable pub IsInRange : PromptHistory → Type 0
IsInRange h = IsCursor h.entries h.browsing h.cursor × IsSearch h.entries h.search

-- A step that does not panic, to a history in range.
unfoldable pub GoesOn : Step → Type 0
GoesOn none = ⊥
GoesOn (some (s, effects)) = IsInRange s.history

length-reverse : {A : Type 0} (xs : List A) → length (reverse xs) ≡ length xs
length-reverse [] = refl
length-reverse (x ∷ xs) =
    ap length (reverse-cons x xs)
    ∙ omega (arith, length-append (reverse xs) (x ∷ []), length-reverse xs)

with_command-IsInRange :
    (s : State) (raw : Text) (o : Option Text)
    → IsInRange s.history
    → IsInRange (with_command s raw o).0.history
unfolding IsInRange
with_command-IsInRange s raw none h = h
with_command-IsInRange s raw (some command) h = h

show_entry-GoesOn :
    (s : State) (i : ℕ)
    → i < length s.history.entries
    → IsInRange s.history
    → GoesOn (show_entry s i)
unfolding GoesOn show
show_entry-GoesOn s i l h =
    let (raw, e) = get_elem-some s.history.entries i l in
    rw e (with_command-IsInRange s raw (cut_prefix raw (codes "!")) h)

pub reset-IsInRange : (h : PromptHistory) → IsInRange (reset h)
unfolding reset IsInRange IsCursor IsSearch
reset-IsInRange h = (tt, tt)

pub view-IsInRange : (h : PromptHistory) → IsInRange (view h)
unfolding view
view-IsInRange h = reset-IsInRange _

pub follow-IsInRange :
    (workspace : Text) (h : PromptHistory) → IsInRange h → IsInRange (follow workspace h)
unfolding follow
follow-IsInRange workspace h k = elim (Bool-cases (text_eq workspace h.workspace)) [
  | inl e ↦ rw e k
  | inr e ↦ rw e (view-IsInRange _)
]

older_from-GoesOn :
    (s : State) (b : Bool)
    → s.history.browsing ≡ b
    → 0 < length s.history.entries
    → IsInRange s.history
    → GoesOn (older_from s b)
unfolding IsInRange IsCursor
older_from-GoesOn s true e pos (c, q) =
    let k : s.history.cursor < length s.history.entries =
      subst (λ x. IsCursor s.history.entries x s.history.cursor) e c in
    show_entry-GoesOn (with_history s (record s.history { cursor = s.history.cursor - 1 }))
      (s.history.cursor - 1) (omega arith)
      (subst (λ x. IsCursor s.history.entries x (s.history.cursor - 1)) (sym e) (omega arith), q)
older_from-GoesOn s false e pos (c, q) =
    show_entry-GoesOn
      (with_history s (record s.history { cursor = length s.history.entries - 1; browsing = true }))
      (length s.history.entries - 1) (omega arith) (omega arith, q)

pub older-GoesOn : (s : State) → IsInRange s.history → GoesOn (older s)
unfolding older GoesOn
older-GoesOn s h =
    elim (Bool-cases
      (length s.history.entries == 0 || (s.history.browsing && s.history.cursor == 0))) [
        | inl e ↦ rw e h
        | inr e ↦ rw e (older_from-GoesOn s s.history.browsing refl (ground arith) h)
      ]

newer_from-GoesOn :
    (s : State) (b : Bool) → s.history.browsing ≡ b → IsInRange s.history → GoesOn (newer_from s b)
unfolding GoesOn IsInRange IsCursor
newer_from-GoesOn s false e h = h
newer_from-GoesOn s true e (c, q) =
    let h = s.history in
    elim (Bool-cases (leb (length h.entries) (h.cursor + 1))) [
      | inl l ↦ rw l (reset-IsInRange h)
      | inr l ↦ rw l (
          show_entry-GoesOn (with_history s (record h { cursor = h.cursor + 1 })) (h.cursor + 1)
            (ground arith)
            (subst (λ x. IsCursor h.entries x (h.cursor + 1)) (sym e) (ground arith), q))
    ]

pub newer-GoesOn : (s : State) → IsInRange s.history → GoesOn (newer s)
unfolding newer
newer-GoesOn s h = newer_from-GoesOn s s.history.browsing refl h

move_to-GoesOn :
    (s : State) (search : HistorySearch) (next : ℕ) (o : Option ℕ)
    → next < length search.matches
    → get_elem? search.matches next ≡ o
    → All (λ i. i < length s.history.entries) search.matches
    → IsInRange s.history
    → GoesOn (move_to s search next o)
unfolding IsInRange IsSearch
move_to-GoesOn s search next none l e all h =
    let (i, k) = get_elem-some search.matches next l in absurd (not_none i (sym k ∙ e))
  where
    not_none : (i : ℕ) → some i ≢ none
    not_none i x = cc
move_to-GoesOn s search next (some i) l e all (c, q) =
    show_entry-GoesOn (with_search s (record search { at = next })) i
      (All-get (λ j. j < length s.history.entries) search.matches next i all e)
      (c, (all, shown search.status))
  where
    shown : (status : SearchStatus) → HasMatch status next search.matches
    shown search_idle = tt
    shown search_match = l
    shown search_no_match = tt

move-GoesOn :
    (s : State) (search : HistorySearch) (next : ℕ)
    → next < length search.matches
    → All (λ i. i < length s.history.entries) search.matches
    → IsInRange s.history
    → GoesOn (move s search next)
unfolding move
move-GoesOn s search next l all h =
    move_to-GoesOn s search next (get_elem? search.matches next) l refl all h

move_search-GoesOn :
    (s : State) (search : HistorySearch) (b : Bool)
    → IsInRange s.history
    → IsSearch s.history.entries (some search)
    → GoesOn (move_search s search b)
unfolding move_search GoesOn IsSearch
move_search-GoesOn s search true h (all, at) =
    elim (Bool-cases
      (not (is_match search.status) || leb (length search.matches) (search.at + 1))) [
        | inl e ↦ rw e h
        | inr e ↦ rw e (move-GoesOn s search (search.at + 1) (ground arith) all h)
      ]
move_search-GoesOn s search false h (all, at) =
    elim (Bool-cases (
      not (is_match search.status)
      || search.at == 0
      || leb (length search.matches) (search.at - 1))) [
        | inl e ↦ rw e h
        | inr e ↦ rw e (move-GoesOn s search (search.at - 1) (ground arith) all h)
      ]

module _ (lower : ℕ → ℕ) where
  find_loop-places :
      (query : Text) (seen entries : List Text)
      → All (λ i. i < length entries) (find_loop lower query seen entries)
  unfolding find_loop
  find_loop-places query seen [] = tt
  find_loop-places query seen (entry ∷ earlier) =
      let more : (seen : List Text)
          → All (λ i. i < suc (length earlier)) (find_loop lower query seen earlier) =
        λ seen.
          All-map (λ i. i < length earlier) (λ i. i < suc (length earlier))
            (find_loop lower query seen earlier) (λ i l. omega arith)
            (find_loop-places query seen earlier) in
      elim (Bool-cases
        (contains seen (display entry) || not (has_infix (map lower (display entry)) query))) [
          | inl e ↦ rw e (more seen)
          | inr e ↦ rw e (omega arith, more (display entry ∷ seen))
        ]

  with_matches-GoesOn :
      (s : State) (search : HistorySearch) (matches : List ℕ)
      → IsInRange s.history
      → All (λ i. i < length s.history.entries) matches
      → GoesOn (with_matches lower s search matches)
  unfolding GoesOn IsInRange IsSearch restore
  with_matches-GoesOn s search [] (c, q) all = (c, (tt, tt))
  with_matches-GoesOn s search (i ∷ matches) (c, q) (l, all) =
      show_entry-GoesOn
        (with_search s (record search { matches = i ∷ matches; at = 0; status = search_match })) i l
        (c, ((l, all), omega arith))

  find-GoesOn :
      (s : State) (search : HistorySearch) → IsInRange s.history → GoesOn (find lower s search)
  unfolding find GoesOn IsInRange IsSearch restore
  find-GoesOn s search (c, q) = elim (Bool-cases (text_eq search.query [])) [
    | inl e ↦ rw e (c, (tt, tt))
    | inr e ↦ rw e (
        with_matches-GoesOn s search _ (c, q)
          (subst
            (λ n.
              All (λ i. i < n)
                (find_loop lower (map lower search.query) [] (reverse s.history.entries)))
            (length-reverse s.history.entries)
            (find_loop-places (map lower search.query) [] (reverse s.history.entries))))
  ]

  accept_at-GoesOn :
      (s : State) (search : HistorySearch) (o : Option ℕ)
      → search.at < length search.matches
      → get_elem? search.matches search.at ≡ o
      → All (λ i. i < length s.history.entries) search.matches
      → GoesOn (accept_at lower s o)
  unfolding GoesOn IsInRange IsSearch IsCursor
  accept_at-GoesOn s search none l e all =
      let (i, k) = get_elem-some search.matches search.at l in absurd (not_none i (sym k ∙ e))
    where
      not_none : (i : ℕ) → some i ≢ none
      not_none i x = cc
  accept_at-GoesOn s search (some i) l e all =
      (All-get (λ j. j < length s.history.entries) search.matches search.at i all e, tt)

  accepted-GoesOn :
      (s : State) (search : HistorySearch) (status : SearchStatus)
      → IsInRange s.history
      → All (λ i. i < length s.history.entries) search.matches
      → HasMatch status search.at search.matches
      → GoesOn (accepted lower s search status)
  unfolding GoesOn
  accepted-GoesOn s search search_match h all at = accept_at-GoesOn s search _ at refl all
  accepted-GoesOn s search search_idle h all at = h
  accepted-GoesOn s search search_no_match h all at = h

  pub searching-GoesOn :
      (s : State) (search : HistorySearch) (ev : Event)
      → IsInRange s.history
      → IsSearch s.history.entries (some search)
      → GoesOn (searching lower s search ev)
  unfolding GoesOn IsSearch restore
  searching-GoesOn s search (search_open draft) h q = move_search-GoesOn s search true h q
  searching-GoesOn s search (search_move older) h q = move_search-GoesOn s search older h q
  searching-GoesOn s search (search_type text) h q = find-GoesOn s _ h
  searching-GoesOn s search search_clear h q = find-GoesOn s _ h
  searching-GoesOn s search search_accept h (all, at) =
      accepted-GoesOn s search search.status h all at
  searching-GoesOn s search search_cancel h q = reset-IsInRange s.history
  searching-GoesOn s search (prompts_loaded p) h q = h
  searching-GoesOn s search recall_older h q = h
  searching-GoesOn s search recall_newer h q = h
  searching-GoesOn s search (submit text) h q = h
  searching-GoesOn s search (steer text) h q = h
  searching-GoesOn s search (draft_cleared text) h q = h
  searching-GoesOn s search (session_opened id workspace) h q = h
  searching-GoesOn s search (composer_changed shell attached) h q = h

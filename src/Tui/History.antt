-- ===== src/Tui/History.antt =====
-- internal/tui/state/history.go and historysearch.go: the history of prompts that the arrows recall
-- and ctrl+r searches. An index out of range, where the source panics, is none.
pub mod Ranges
pub mod Runs
mod Samples
use mathlib.Core.List.{reverse}
use uagent_harness.Prelude.{
  ℕ, zero, suc, ◌+◌, ◌-◌, Bool, true, false, ◌&&◌, ◌||◌, not, Option, none, some, List, [], ◌∷◌,
  ◌++◌, map, ◌==◌, ltb, leb, if◌then◌else◌, Text, codes, text_eq, contains, has_infix, cut_prefix,
  trim_space, length, get_elem?,
}
use uagent_harness.Images.{Image, join_images, split_images, display}

-- A prompt, with the workspace that it was sent in.
pub record Prompt : Type 0 where
  pub workspace : Text
  pub text : Text

pub data SearchStatus : Type 0 where
  search_idle search_match search_no_match : SearchStatus

pub record SavedDraft : Type 0 where
  pub text : Text
  pub shell : Bool
  pub attached : List Image

pub record HistorySearch : Type 0 where
  pub query : Text
  pub status : SearchStatus
  pub matches : List ℕ
  pub at : ℕ
  pub saved : SavedDraft

pub record PromptHistory : Type 0 where
  pub file : List Prompt
  pub local : List Prompt
  pub workspace : Text
  pub unsent : List Text
  pub entries : List Text
  pub from_file : ℕ
  pub cursor : ℕ
  pub browsing : Bool
  pub recalled : Text
  pub search : Option HistorySearch

-- The parts of the state that the history reads and writes.
pub record State : Type 0 where
  pub session_id : Text
  pub workspace : Text
  pub shell : Bool
  pub attached : List Image
  pub history : PromptHistory

pub data Event : Type 0 where
  prompts_loaded : List Prompt → Event
  recall_older : Event
  recall_newer : Event
  search_open : Text → Event
  search_type : Text → Event
  search_clear : Event
  search_move : Bool → Event
  search_accept : Event
  search_cancel : Event
  submit : Text → Event
  steer : Text → Event
  draft_cleared : Text → Event
  session_opened : (id workspace : Text) → Event
  -- What the other handlers do to the composer.
  composer_changed : Bool → List Image → Event

pub data Effect : Type 0 where
  set_draft : Text → Effect
  record_prompt : (session_id workspace text : Text) → Effect

-- The state after an event, and the effects; none where the source panics.
abbrev pub Step : Type 0
Step = Option (State × List Effect)

abbrev pub composer_text : State → Text → Text
composer_text s draft = if s.shell then b'!' ∷ draft else draft

-- Whether an arrow recalls a prompt, `newer` for the one down.
unfoldable pub recalls : State → Text → Bool → Bool → Bool
recalls s draft at_edge newer =
    let text = composer_text s draft in
    if length s.history.entries == 0 || (newer && not s.history.browsing)
    then false
    else text_eq text [] || (at_edge && text_eq text s.history.recalled)

abbrev is_open : Option HistorySearch → Bool
is_open none = false
is_open (some search) = true

unfoldable pub shows_recalled : State → Text → Bool
shows_recalled s draft =
    is_open s.history.search
    || (not (text_eq s.history.recalled []) && text_eq (composer_text s draft) s.history.recalled)

-- Ends browsing and searching.
unfoldable pub reset : PromptHistory → PromptHistory
reset h = record h { browsing = false; cursor = 0; recalled = []; search = none }

abbrev pub is_of : Text → Prompt → Bool
is_of workspace p = not (text_eq p.workspace []) && text_eq p.workspace workspace

-- The texts of a workspace's prompts.
unfoldable pub texts_of : Text → List Prompt → List Text
texts_of workspace [] = []
texts_of workspace (p ∷ prompts) =
    let rest = texts_of workspace prompts in if is_of workspace p then p.text ∷ rest else rest

unfoldable pub view : PromptHistory → PromptHistory
view h = reset (record h {
  entries = texts_of h.workspace h.file ++ texts_of h.workspace h.local;
  from_file = length (texts_of h.workspace h.file);
})

unfoldable pub follow : Text → PromptHistory → PromptHistory
follow workspace h =
    if text_eq workspace h.workspace then h else view (record h { workspace = workspace })

abbrev pub joined : Text → Prompt → Prompt
joined workspace p = if text_eq p.workspace [] then record p { workspace = workspace } else p

unfoldable pub opened : Text → Text → PromptHistory → PromptHistory × List Effect
opened id workspace h =
    let moved = follow workspace (record h { local = map (joined workspace) h.local }) in
    (record moved { unsent = [] }, map (λ text. record_prompt id workspace text) moved.unsent)

abbrev pub with_command : State → Text → Option Text → State × List Effect
with_command s raw (some command) = (
  record s { shell = true; attached = []; history = record s.history { recalled = raw } },
  set_draft command ∷ [],
)
with_command s raw none =
    let (text, images) = split_images raw in
    (
      record s { shell = false; attached = images; history = record s.history { recalled = text } },
      set_draft text ∷ [],
    )

-- Puts an entry in the composer.
unfoldable pub show : State → Text → State × List Effect
show s raw = with_command s raw (cut_prefix raw (codes "!"))

abbrev pub show_at : State → Option Text → Step
show_at s none = none
show_at s (some raw) = some (show s raw)

abbrev pub unchanged : State → Step
unchanged s = some (s, [])

abbrev pub with_history : State → PromptHistory → State
with_history s h = record s { history = h }

abbrev pub show_entry : State → ℕ → Step
show_entry s i = show_at s (get_elem? s.history.entries i)

abbrev pub older_from : State → Bool → Step
older_from s true =
    show_entry (with_history s (record s.history { cursor = s.history.cursor - 1 }))
      (s.history.cursor - 1)
older_from s false =
    let last = length s.history.entries - 1 in
    show_entry (with_history s (record s.history { cursor = last; browsing = true })) last

unfoldable pub older : State → Step
older s =
    let h = s.history in
    if length h.entries == 0 || (h.browsing && h.cursor == 0)
    then unchanged s
    else older_from s h.browsing

abbrev pub newer_from : State → Bool → Step
newer_from s false = unchanged s
newer_from s true =
    let h = s.history in
    if leb (length h.entries) (h.cursor + 1)
    then some (record s { shell = false; attached = []; history = reset h }, set_draft [] ∷ [])
    else show_entry (with_history s (record h { cursor = h.cursor + 1 })) (h.cursor + 1)

unfoldable pub newer : State → Step
newer s = newer_from s s.history.browsing

-- Puts a saved draft back.
unfoldable pub restore : State → SavedDraft → State × List Effect
restore s d = (record s { shell = d.shell; attached = d.attached }, set_draft d.text ∷ [])

abbrev pub with_search : State → HistorySearch → State
with_search s search = with_history s (record s.history { search = some search })

-- Shows the match at a position.
abbrev pub move_to : State → HistorySearch → ℕ → Option ℕ → Step
move_to s search next none = none
move_to s search next (some i) = show_entry (with_search s (record search { at = next })) i

unfoldable pub move : State → HistorySearch → ℕ → Step
move s search next = move_to s search next (get_elem? search.matches next)

abbrev pub is_match : SearchStatus → Bool
is_match search_match = true
is_match _ = false

-- To an older or a newer match; the source's index -1 is the position before the first.
unfoldable pub move_search : State → HistorySearch → Bool → Step
move_search s search true =
    if not (is_match search.status) || leb (length search.matches) (search.at + 1)
    then unchanged s
    else move s search (search.at + 1)
move_search s search false =
    if not (is_match search.status) || search.at == 0 || leb (length search.matches) (search.at - 1)
    then unchanged s
    else move s search (search.at - 1)

-- The query without its last character.
unfoldable pub but_last : Text → Text
but_last [] = []
but_last (c ∷ []) = []
but_last (c ∷ d ∷ s) = c ∷ but_last (d ∷ s)

-- The letters that start a slash command's name.
abbrev is_name : ℕ → Bool
is_name c =
    (leb 97 c && leb c 122)
    || (leb 65 c && leb c 90)
    || (leb 48 c && leb c 57)
    || c == 45
    || c == 95

-- The name up to the first blank: the rest is arguments.
unfoldable pub command_name : Text → Text
command_name [] = []
command_name (c ∷ s) =
    let rest = command_name s in if c == 32 || c == 10 || c == 9 then [] else c ∷ rest

unfoldable pub all_name : Text → Bool
all_name [] = true
all_name (c ∷ s) = is_name c && all_name s

-- Trimming the letters of a name from both ends leaves nothing when there is no other character.
abbrev named : Option Text → Bool
named none = false
named (some rest) = not (text_eq (command_name rest) []) && all_name (command_name rest)

unfoldable pub is_command : Text → Bool
is_command text = named (cut_prefix text (codes "/"))

-- The last entry, when it is one of this process.
unfoldable pub repeats : PromptHistory → Text → Bool
repeats h raw =
    ltb h.from_file (length h.entries) && elim (get_elem? h.entries (length h.entries - 1)) [
      | none ↦ false
      | some last ↦ text_eq last raw
    ]

unfoldable pub add : PromptHistory → Text → PromptHistory
add h raw = if repeats h raw then h else record h {
  local = h.local ++ record { workspace = h.workspace; text = raw } ∷ [];
  entries = h.entries ++ raw ∷ [];
}

unfoldable pub named_images : Text → List Image → List Image
named_images text [] = []
named_images text (image ∷ images) =
    let rest = named_images text images in if has_infix text image.label then image ∷ rest else rest

unfoldable pub tagged : State → Text → Text
tagged s text = join_images text (named_images text s.attached)

abbrev pub recorded : State → Text → Bool → Text → State × List Effect
recorded s text local shown =
    if local || (not s.shell && is_command text)
    then (s, [])
    else if text_eq s.session_id []
    then (with_history s (record s.history { unsent = s.history.unsent ++ shown ∷ [] }), [])
    else (s, record_prompt s.session_id s.workspace shown ∷ [])

abbrev pub remembered : State → Bool → Text → State × List Effect
remembered s local text =
    let shown = if s.shell then b'!' ∷ text else text in
    let raw = if s.shell then b'!' ∷ text else tagged s text in
    if text_eq text []
    then (s, [])
    else recorded (with_history s (reset (add s.history raw))) text local shown

abbrev pub after_opening : State → PromptHistory × List Effect → State × List Effect
after_opening s (h, effects) = (with_history s h, effects)

-- What every event records, before the reducer acts on it.
unfoldable pub remember : State → Event → State × List Effect
remember s (submit text) = remembered s false (trim_space text)
remember s (steer text) = remembered s false (trim_space text)
remember s (draft_cleared draft) = remembered s true (trim_space draft)
remember s (session_opened id workspace) = after_opening s (opened id workspace s.history)
remember s ev = (s, [])

-- `lower` is unicode.ToLower.
module _ (lower : ℕ → ℕ) where
  -- The loop over the entries, from the newest on.
  unfoldable pub find_loop : Text → List Text → List Text → List ℕ
  find_loop query seen [] = []
  find_loop query seen (entry ∷ earlier) =
      let text = display entry in
      let skipped = find_loop query seen earlier in
      let found = find_loop query (text ∷ seen) earlier in
      if contains seen text || not (has_infix (map lower text) query)
      then skipped
      else length earlier ∷ found

  abbrev pub with_matches : State → HistorySearch → List ℕ → Step
  with_matches s search [] = some (
      restore (with_search s (record search { matches = []; at = 0; status = search_no_match }))
        search.saved)
  with_matches s search (i ∷ matches) =
      show_entry
        (with_search s (record search { matches = i ∷ matches; at = 0; status = search_match })) i

  unfoldable pub find : State → HistorySearch → Step
  find s search =
      let idle = with_search s (record search { matches = []; at = 0; status = search_idle }) in
      if text_eq search.query []
      then some (restore idle search.saved)
      else with_matches s search (find_loop (map lower search.query) [] (reverse s.history.entries))

  abbrev pub accept_at : State → Option ℕ → Step
  accept_at s none = none
  accept_at s (some i) =
      unchanged (with_history s (record s.history { search = none; cursor = i; browsing = true }))

  -- With the status of the search.
  abbrev pub accepted : State → HistorySearch → SearchStatus → Step
  accepted s search search_match = accept_at s (get_elem? search.matches search.at)
  accepted s search status = unchanged s

  abbrev pub opening : State → Text → HistorySearch
  opening s draft = record {
    query = [];
    status = search_idle;
    matches = [];
    at = 0;
    saved = record { text = draft; shell = s.shell; attached = s.attached };
  }

  -- A search event while a search is open.
  abbrev pub searching : State → HistorySearch → Event → Step
  searching s search (search_open draft) = move_search s search true
  searching s search (search_move older) = move_search s search older
  searching s search (search_type text) = find s (record search {
    query = if text_eq text (8 ∷ []) then but_last search.query else search.query ++ text;
  })
  searching s search search_clear = find s (record search { query = [] })
  searching s search search_accept = accepted s search search.status
  searching s search search_cancel = some (restore (with_history s (reset s.history)) search.saved)
  searching s search ev = unchanged s

  abbrev pub on_search : State → Event → Option HistorySearch → Step
  on_search s (search_open draft) none = unchanged (with_search s (opening s draft))
  on_search s ev none = unchanged s
  on_search s ev (some search) = searching s search ev

  unfoldable pub on_history : State → Event → Step
  on_history s (prompts_loaded prompts) =
      unchanged (with_history s (view (record s.history { file = prompts })))
  on_history s recall_older = older s
  on_history s recall_newer = newer s
  on_history s ev = on_search s ev s.history.search

  abbrev pub with_effects : List Effect → Step → Step
  with_effects effects none = none
  with_effects effects (some (s, more)) = some (s, more ++ effects)

  -- The events that other handlers take, as far as the history reads what they change.
  abbrev pub on_event : State → Event → Step
  on_event s (session_opened id workspace) =
      unchanged (record s { session_id = id; workspace = workspace })
  on_event s (composer_changed shell attached) =
      unchanged (record s { shell = shell; attached = attached })
  on_event s ev = on_history s ev

  -- The reducer's part for the history: what is recorded, then the event itself.
  unfoldable pub reduce_history : State → Event → Step
  reduce_history s ev =
      let (recorded_state, effects) = remember s ev in
      with_effects effects (on_event recorded_state ev)

  -- The states and effects of a list of events.
  unfoldable pub run : State → List Event → Option State
  run s [] = some s
  run s (ev ∷ events) = elim (reduce_history s ev) [
    | none ↦ none
    | some (next, effects) ↦ run next events
  ]

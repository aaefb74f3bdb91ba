-- ===== src/Tui/Questions.antt =====
-- internal/tui/state/questions.go: the picker of the agent's questions. The parallel slices of the
-- source are one list of slots; an index out of range, where the source panics, is none.
pub mod Slots
pub mod Intents
pub mod Sent
mod Samples
use uagent_harness.Prelude.{
  ℕ, zero, suc, ◌+◌, ◌-◌, ◌%◌, Bool, true, false, ◌&&◌, ◌||◌, not, Option, none, some, List, [],
  ◌∷◌, ◌++◌, map, ◌==◌, ltb, leb, if◌then◌else◌, Text, codes, text_eq, trim_space, length,
  get_elem?,
}

-- A question by its id and the labels of its options, with what was chosen: an option's index, or
-- the number of options for an answer of one's own.
pub record Slot : Type 0 where
  pub id : Text
  pub options : List Text
  pub choice : ℕ
  pub notes : List Text
  pub own : Text
  pub done : Bool

pub record Questions : Type 0 where
  pub id : Text
  pub slots : List Slot
  pub current : ℕ
  pub noting : Option ℕ
  pub sent : Bool

-- The keys' deltas, 1 and -1.
pub data Delta : Type 0 where
  forward backward : Delta

pub data Intent : Type 0 where
  question_move : Delta → Text → Intent
  question_pick : ℕ → Intent
  question_note : Intent
  question_switch : Delta → Text → Intent
  question_answer : Text → Intent
  question_dismiss : Intent

-- By the question's id.
abbrev pub Answers : Type 0
Answers = List (Text × List Text)

pub data Effect : Type 0 where
  set_draft : Text → Effect
  answer_questions : Text → Answers → Effect
  interrupt : Effect

abbrev pub Step : Type 0
Step = Option (Questions × List Effect)

abbrev pub rows : Slot → ℕ
rows s = length s.options + 1

abbrev pub own_row : Slot → Bool
own_row s = s.choice == length s.options

unfoldable pub blanks : List Text → List Text
blanks [] = []
blanks (o ∷ options) = [] ∷ blanks options

-- A question with its options' labels.
abbrev pub asked_slot : Text × List Text → Slot
asked_slot (id, options) = record {
  id = id;
  options = options;
  choice = 0;
  notes = blanks options;
  own = [];
  done = false;
}

unfoldable pub ask : Text → List (Text × List Text) → Questions
ask id questions = record {
  id = id;
  slots = map asked_slot questions;
  current = 0;
  noting = none;
  sent = false;
}

-- Puts a slot at a position.
unfoldable pub put : List Slot → ℕ → Slot → List Slot
put [] i new = []
put (s ∷ slots) zero new = new ∷ slots
put (s ∷ slots) (suc i) new = s ∷ put slots i new

unfoldable pub put_note : List Text → ℕ → Text → List Text
put_note [] i note = []
put_note (n ∷ notes) zero note = note ∷ notes
put_note (n ∷ notes) (suc i) note = n ∷ put_note notes i note

abbrev pub draft_of : Slot → Text
draft_of s = if own_row s then s.own else []

abbrev pub left : Option ℕ → Text → Slot → Slot
left (some i) draft s = s
left none draft s = if own_row s then record s { own = draft } else s

abbrev pub with_slot : Questions → Slot → Questions
with_slot q s = record q { slots = put q.slots q.current s }

abbrev pub choose : Questions → Slot → ℕ → Text → Questions × Slot
choose q s row draft =
    let chosen = record (left q.noting draft s) { choice = row } in
    (with_slot (record q { noting = none }) chosen, chosen)

-- A question's row, as the answer names it.
abbrev pub or_other : Option Text → Text
or_other (some label) = label
or_other none = codes "None of the above"

abbrev pub note_of : Slot → Option Text
note_of s = if ltb s.choice (length s.options) then get_elem? s.notes s.choice else some s.own

abbrev pub noted : Slot → Option Text → Option (List Text)
noted s none = none
noted s (some note) = some (
    or_other (get_elem? s.options s.choice)
    ∷ (if text_eq note [] then [] else (codes "user_note: " ++ note) ∷ []))

abbrev pub answer_of : Slot → Option (List Text)
answer_of s = if s.done then noted s (note_of s) else some []

abbrev pub onto_answers : Text → Option (List Text) → Option Answers → Option Answers
onto_answers id (some answer) (some rest) = some ((id, answer) ∷ rest)
onto_answers id _ _ = none

unfoldable pub answers : List Slot → Option Answers
answers [] = some []
answers (s ∷ slots) = onto_answers s.id (answer_of s) (answers slots)

abbrev pub is_done : Option Slot → Bool
is_done none = true
is_done (some s) = s.done

-- The first question after the current one, in a circle, that has no answer; `n` are left to try,
-- from the i-th after it on.
unfoldable pub next_open : List Slot → ℕ → ℕ → ℕ → Option ℕ
next_open slots current zero i = none
next_open slots current (suc n) i =
    let next = (current + 1 + i) % length slots in
    let later = next_open slots current n (suc i) in
    if is_done (get_elem? slots next) then later else some next

abbrev pub send : Questions → Option Answers → Step
send q none = none
send q (some all) = some (record q { sent = true }, set_draft [] ∷ answer_questions q.id all ∷ [])

abbrev pub show_slot : Questions → Option Slot → Step
show_slot q none = none
show_slot q (some s) = some (q, set_draft (draft_of s) ∷ [])

-- To the next question without an answer, or sends the answers.
abbrev pub go_on : Questions → Option ℕ → Step
go_on q none = send q (answers q.slots)
go_on q (some next) = show_slot (record q { current = next }) (get_elem? q.slots next)

abbrev pub answered : Slot → Text → Slot
answered s draft = record s { own = if own_row s then trim_space draft else s.own; done = true }

unfoldable pub answer : Questions → Slot → Text → Step
answer q s draft =
    let next = with_slot q (answered s draft) in
    go_on next (next_open next.slots next.current (length next.slots) 0)

abbrev pub more_effects : List Effect → Step → Step
more_effects effects none = none
more_effects effects (some (q, more)) = some (q, effects ++ more)

abbrev pub is_noting : Option ℕ → Bool
is_noting none = false
is_noting (some i) = true

unfoldable pub pick : Questions → Slot → ℕ → Step
pick q s number =
    let (next, chosen) = choose q s (number - 1) [] in
    let effects = set_draft (draft_of chosen) ∷ [] in
    if is_noting q.noting || number == 0 || ltb (rows s) number
    then some (q, [])
    else if own_row chosen
    then some (next, effects)
    else more_effects effects (answer next chosen [])

abbrev pub enter : Questions → Slot → Text → Option ℕ → Step
enter q s draft (some i) =
    if ltb i (length s.notes)
    then some (
      with_slot (record q { noting = none })
          (record s { notes = put_note s.notes i (trim_space draft) }),
      set_draft [] ∷ [],
    )
    else none
enter q s draft none =
    if own_row s && text_eq (trim_space draft) [] then some (q, []) else answer q s draft

abbrev pub moved : Delta → ℕ → ℕ → ℕ
moved forward i n = (i + 1 + n) % n
moved backward i n = (i + n - 1) % n

abbrev pub draft_effect : Questions × Slot → Questions × List Effect
draft_effect (q, s) = (q, set_draft (draft_of s) ∷ [])

abbrev pub note_draft : Questions → Option Text → Step
note_draft q none = none
note_draft q (some note) = some (q, set_draft note ∷ [])

abbrev pub dismiss : Questions → Option ℕ → Questions × List Effect
dismiss q (some i) = (record q { noting = none }, set_draft [] ∷ [])
dismiss q none = (q, interrupt ∷ [])

-- With the slot of the question that is shown.
abbrev pub on_slot : Questions → Intent → Slot → Step
on_slot q (question_move delta draft) s =
    if is_noting q.noting
    then some (q, [])
    else some (draft_effect (choose q s (moved delta s.choice (rows s)) draft))
on_slot q (question_pick number) s = pick q s number
on_slot q question_note s =
    if is_noting q.noting || own_row s
    then some (q, [])
    else note_draft (record q { noting = some s.choice }) (get_elem? s.notes s.choice)
on_slot q (question_switch delta draft) s =
    let next = with_slot (record q { noting = none }) (left q.noting draft s) in
    let current = moved delta q.current (length q.slots) in
    show_slot (record next { current = current }) (get_elem? next.slots current)
on_slot q (question_answer draft) s = enter q s draft q.noting
on_slot q question_dismiss s = some (dismiss q q.noting)

abbrev pub on_slot_at : Questions → Intent → Option Slot → Step
on_slot_at q intent none = none
on_slot_at q intent (some s) = on_slot q intent s

-- Once the answers are sent, only a dismissal does something.
abbrev pub on_sent : Questions → Intent → Questions × List Effect
on_sent q question_dismiss = dismiss q q.noting
on_sent q intent = (q, [])

unfoldable pub on_question : Questions → Intent → Step
on_question q intent =
    if q.sent then some (on_sent q intent) else on_slot_at q intent (get_elem? q.slots q.current)

abbrev pub run_on : Step → (Questions → Option Questions) → Option Questions
run_on none f = none
run_on (some (q, effects)) f = f q

unfoldable pub run_questions : Questions → List Intent → Option Questions
run_questions q [] = some q
run_questions q (intent ∷ intents) =
    run_on (on_question q intent) (λ next. run_questions next intents)

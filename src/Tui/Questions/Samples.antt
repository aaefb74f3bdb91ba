-- ===== src/Tui/Questions/Samples.antt =====
-- internal/tui/state/questions.go: two questions.
use uagent_harness.Prelude.{
  ◌≡◌, refl, Option, none, some, List, [], ◌∷◌, Text, codes, text_eq, trim_space,
}
use uagent_harness.Tui.Questions.{
  Questions, Intent, question_move, question_note, question_answer, question_dismiss, backward,
  Effect, set_draft, answer_questions, interrupt, ask, on_question, run_questions, Step, answer,
  answers, blanks, next_open, put, put_note,
}

abbrev questions : List (Text × List Text)
questions = (codes "q", codes "yes" ∷ codes "no" ∷ []) ∷ (codes "r", codes "a" ∷ []) ∷ []

abbrev typed : List Intent
typed =
    question_note
    ∷ question_answer (codes " why ")
    ∷ question_answer []
    ∷ question_move backward []
    ∷ []

-- The last intent's effects.
abbrev after_all : Option Questions → Intent → Step
after_all none intent = none
after_all (some q) intent = on_question q intent

abbrev effects_of : Step → List Effect
effects_of none = []
effects_of (some (q, effects)) = effects

sends_all :
    effects_of
      (after_all (run_questions (ask (codes "1") questions) typed) (question_answer (codes "mine")))
    ≡ set_draft []
      ∷ answer_questions (codes "1") (
          (codes "q", codes "yes" ∷ codes "user_note: why" ∷ [])
          ∷ (codes "r", codes "None of the above" ∷ codes "user_note: mine" ∷ [])
          ∷ [])
      ∷ []
unfolding run_questions on_question ask blanks put answer next_open text_eq trim_space answers
    put_note
sends_all = refl

interrupts : effects_of (on_question (ask (codes "1") questions) question_dismiss) ≡ interrupt ∷ []
unfolding on_question ask
interrupts = refl

-- ===== src/Tui/Questions/Intents.antt =====
-- internal/tui/state/questions.go: each intent keeps the picker in order.
use native.Mathlib.Nat.{mod-lt}
use uagent_harness.Prelude.{
  ℕ, ◌+◌, ◌-◌, ◌≤◌, ◌<◌, ◌≡◌, refl, ◌∙◌, sym, ap, subst, Bool, true, false, ◌&&◌, ◌||◌, inl, inr,
  Option, none, some, List, [], ◌∷◌, ◌==◌, ltb, if◌then◌else◌, arith, Text, text_eq, trim_space,
  length, get_elem?, get_elem-some, All, All-get, Bool-cases,
}
use uagent_harness.Tui.Questions.{
  Slot, Questions, Delta, forward, backward, Intent, question_move, question_pick, question_note,
  question_switch, question_answer, question_dismiss, Answers, Effect, set_draft, Step, rows,
  own_row, put_note, left, with_slot, choose, note_of, noted, answer_of, answers, next_open, send,
  show_slot, go_on, answered, answer, more_effects, is_noting, pick, enter, moved, note_draft,
  dismiss, on_slot,
}
use uagent_harness.Tui.Questions.Slots.{
  IsSlot, IsDone, IsNoting, IsSent, IsReady, GoesOn, All-put, length-put, length-put_note,
  left-IsSlot, left-options, ready, next_open-below, next_open-All,
}

note_of-some : (s : Slot) → IsSlot s → (note : Text) × (note_of s ≡ some note)
note_of-some s (l, n) = elim (Bool-cases (ltb s.choice (length s.options))) [
  | inl e ↦ let (note, k) = get_elem-some s.notes s.choice (ground arith) in (note, rw e k)
  | inr e ↦ (s.own, rw e refl)
]

noted-some :
    (s : Slot) (o : Option Text) (note : Text)
    → o ≡ some note
    → (a : List Text) × (noted s o ≡ some a)
noted-some s none note e = cc
noted-some s (some note') note e = (_, refl)

if-some :
    (b : Bool) (o : Option (List Text)) (a : List Text)
    → o ≡ some a
    → (x : List Text) × ((if b then o else some []) ≡ some x)
if-some true o a e = (a, e)
if-some false o a e = ([], refl)

answer_of-some : (s : Slot) → IsSlot s → (a : List Text) × (answer_of s ≡ some a)
answer_of-some s h =
    let (note, k) = note_of-some s h in
    let (a, m) = noted-some s (note_of s) note k in if-some s.done (noted s (note_of s)) a m

answers-some : (slots : List Slot) → All IsSlot slots → (all : Answers) × (answers slots ≡ some all)
unfolding answers
answers-some [] h = ([], refl)
answers-some (s ∷ slots) (h, hs) =
    let (a, e) = answer_of-some s h in
    let (rest, k) = answers-some slots hs in ((s.id, a) ∷ rest, rw (e, k) refl)

send-GoesOn :
    (q : Questions) (o : Option Answers) (all : Answers)
    → o ≡ some all
    → All IsSlot q.slots
    → q.current < length q.slots
    → q.noting ≡ none
    → All IsDone q.slots
    → GoesOn (send q o)
unfolding GoesOn IsReady IsNoting IsSent
send-GoesOn q none all e a l n d = cc
send-GoesOn q (some x) all e a l n d =
    (a, (l, (subst (λ o. IsNoting o (get_elem? q.slots q.current)) (sym n) tt, d)))

show_slot-GoesOn :
    (q : Questions) (o : Option Slot) (s : Slot) → o ≡ some s → IsReady q → GoesOn (show_slot q o)
unfolding GoesOn
show_slot-GoesOn q none s e h = cc
show_slot-GoesOn q (some x) s e h = h

-- To a question in range.
show_next-GoesOn :
    (q : Questions) (next : ℕ)
    → next < length q.slots
    → All IsSlot q.slots
    → q.noting ≡ none
    → q.sent ≡ false
    → GoesOn (show_slot (record q { current = next }) (get_elem? q.slots next))
show_next-GoesOn q next l a n s =
    let (slot, e) = get_elem-some q.slots next l in
    show_slot-GoesOn (record q { current = next }) (get_elem? q.slots next) slot e
      (ready (record q { current = next }) a l n s)

go_on-GoesOn :
    (q : Questions) (o : Option ℕ)
    → next_open q.slots q.current (length q.slots) 0 ≡ o
    → All IsSlot q.slots
    → q.current < length q.slots
    → q.noting ≡ none
    → q.sent ≡ false
    → GoesOn (go_on q o)
go_on-GoesOn q none e a l n s =
    let (all, k) = answers-some q.slots a in
    send-GoesOn q (answers q.slots) all k a l n (next_open-All q.slots q.current l e)
go_on-GoesOn q (some next) e a l n s =
    show_next-GoesOn q next
      (next_open-below q.slots q.current (length q.slots) 0 next (omega arith) e) a n s

answer-GoesOn :
    (q : Questions) (s : Slot) (draft : Text)
    → IsSlot s
    → All IsSlot q.slots
    → q.current < length q.slots
    → q.noting ≡ none
    → q.sent ≡ false
    → GoesOn (answer q s draft)
unfolding answer
answer-GoesOn q s draft h a l n e =
    go_on-GoesOn (with_slot q (answered s draft)) _ refl
      (All-put IsSlot q.slots q.current (answered s draft) a h)
      (omega (arith, length-put q.slots q.current (answered s draft))) n e

module _ (q : Questions) (s : Slot) (h : IsSlot s) (a : All IsSlot q.slots)
    (l : q.current < length q.slots) (e : q.sent ≡ false) where
  chosen-IsSlot :
      (row : ℕ) (draft : Text)
      → row ≤ length s.options
      → IsSlot (record (left q.noting draft s) { choice = row })
  chosen-IsSlot row draft b =
      let options = ap (λ (os : List Text). length os) (left-options q.noting draft s) in
      (omega (arith, options), (left-IsSlot q.noting draft s h).1)

  choose-IsReady :
      (row : ℕ) (draft : Text) → row ≤ length s.options → IsReady (choose q s row draft).0
  choose-IsReady row draft b =
      let chosen = record (left q.noting draft s) { choice = row } in
      ready (with_slot (record q { noting = none }) chosen)
        (All-put IsSlot q.slots q.current chosen a (chosen-IsSlot row draft b))
        (omega (arith, length-put q.slots q.current chosen)) refl e

  more_effects-GoesOn :
      (effects : List Effect) (r : Step) → GoesOn r → GoesOn (more_effects effects r)
  unfolding GoesOn
  more_effects-GoesOn effects none k = k
  more_effects-GoesOn effects (some (next, more)) k = k

  pick-GoesOn : (number : ℕ) → IsReady q → GoesOn (pick q s number)
  unfolding pick GoesOn
  pick-GoesOn number k =
      elim (Bool-cases (is_noting q.noting || number == 0 || ltb (rows s) number)) [
        | inl x ↦ rw x k
        | inr x ↦
            let chosen = record (left q.noting [] s) { choice = number - 1 } in
            let b : number - 1 ≤ length s.options = ground arith in
            let ok = chosen-IsSlot (number - 1) [] b in
            elim (Bool-cases (own_row chosen)) [
              | inl y ↦ rw (x, y) (choose-IsReady (number - 1) [] b)
              | inr y ↦
                  rw (x, y)
                    (more_effects-GoesOn (set_draft [] ∷ [])
                      (answer (with_slot (record q { noting = none }) chosen) chosen [])
                      (answer-GoesOn (with_slot (record q { noting = none }) chosen) chosen [] ok
                        (All-put IsSlot q.slots q.current chosen a ok)
                        (omega (arith, length-put q.slots q.current chosen)) refl e))
            ]
      ]

  enter-GoesOn :
      (draft : Text) (o : Option ℕ)
      → q.noting ≡ o
      → IsNoting o (some s)
      → IsReady q
      → GoesOn (enter q s draft o)
  unfolding GoesOn IsNoting
  enter-GoesOn draft (some i) n b k = elim (Bool-cases (ltb i (length s.notes))) [
    | inr x ↦ absurd (ground arith)
    | inl x ↦
        let kept = record s { notes = put_note s.notes i (trim_space draft) } in
        let next = with_slot (record q { noting = none }) kept in
        let fine =
          ready next
            (All-put IsSlot q.slots q.current kept a
              (h.0, length-put_note s.notes i (trim_space draft) ∙ h.1))
            (omega (arith, length-put q.slots q.current kept)) refl e in
        rw x fine
  ]
  enter-GoesOn draft none n b k = elim (Bool-cases (own_row s && text_eq (trim_space draft) [])) [
    | inl x ↦ rw x k
    | inr x ↦ rw x (answer-GoesOn q s draft h a l n e)
  ]

  note_draft-GoesOn :
      (o : Option Text) (note : Text)
      → o ≡ some note
      → IsReady (record q { noting = some s.choice })
      → GoesOn (note_draft (record q { noting = some s.choice }) o)
  unfolding GoesOn
  note_draft-GoesOn none note k r = cc
  note_draft-GoesOn (some x) note k r = r

  dismiss-IsReady : (o : Option ℕ) → IsReady q → IsReady (dismiss q o).0
  dismiss-IsReady (some i) k = ready (record q { noting = none }) a l refl e
  dismiss-IsReady none k = k

moved-lt : (d : Delta) (i n : ℕ) → 0 < n → moved d i n < n
moved-lt forward i n pos = mod-lt (i + 1 + n) pos
moved-lt backward i n pos = mod-lt (i + n - 1) pos

pub on_slot-GoesOn :
    (q : Questions) (intent : Intent) (s : Slot)
    → get_elem? q.slots q.current ≡ some s
    → q.sent ≡ false
    → IsReady q
    → GoesOn (on_slot q intent s)
unfolding IsReady GoesOn IsNoting IsSent
on_slot-GoesOn q (question_move delta draft) s g e (a, (l, (n, d))) =
    let h = All-get IsSlot q.slots q.current s a g in
    elim (Bool-cases (is_noting q.noting)) [
      | inl x ↦ rw x (a, (l, (n, d)))
      | inr x ↦
          let b = moved-lt delta s.choice (rows s) (omega arith) in
          rw x (choose-IsReady q s h a l e (moved delta s.choice (rows s)) draft (omega (arith, b)))
    ]
on_slot-GoesOn q (question_pick number) s g e (a, (l, (n, d))) =
    pick-GoesOn q s (All-get IsSlot q.slots q.current s a g) a l e number (a, (l, (n, d)))
on_slot-GoesOn q question_note s g e (a, (l, (n, d))) =
    let h = All-get IsSlot q.slots q.current s a g in
    elim (Bool-cases (is_noting q.noting || own_row s)) [
      | inl x ↦ rw x (a, (l, (n, d)))
      | inr x ↦
          let b : s.choice < length s.notes = ground (arith, h) in
          let (note, k) = get_elem-some s.notes s.choice b in
          rw x (
            note_draft-GoesOn q s h a l e (get_elem? s.notes s.choice) note k
              (a, (l, (subst (λ o. IsNoting (some s.choice) o) (sym g) b, d))))
    ]
on_slot-GoesOn q (question_switch delta draft) s g e (a, (l, (n, d))) =
    let kept = left q.noting draft s in
    let size = length-put q.slots q.current kept in
    let next = with_slot (record q { noting = none }) kept in
    let b = moved-lt delta q.current (length q.slots) (omega arith) in
    show_next-GoesOn next (moved delta q.current (length q.slots)) (omega (arith, b, size))
      (All-put IsSlot q.slots q.current kept a
        (left-IsSlot q.noting draft s (All-get IsSlot q.slots q.current s a g)))
      refl e
on_slot-GoesOn q (question_answer draft) s g e (a, (l, (n, d))) =
    enter-GoesOn q s (All-get IsSlot q.slots q.current s a g) a l e draft q.noting refl
      (subst (λ o. IsNoting q.noting o) g n) (a, (l, (n, d)))
on_slot-GoesOn q question_dismiss s g e (a, (l, (n, d))) =
    dismiss-IsReady q s (All-get IsSlot q.slots q.current s a g) a l e q.noting (a, (l, (n, d)))

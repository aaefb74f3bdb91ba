-- ===== src/Tui/Questions/Slots.antt =====
-- internal/tui/state/questions.go: the questions in a circle, and when the picker is in order.
use native.Mathlib.Nat.{mod-lt, mod-eq_of_lt, add-mod_right}
use uagent_harness.Prelude.{
  ℕ, zero, suc, ◌+◌, ◌-◌, ◌%◌, ◌≤◌, ◌<◌, ◌≡◌, ◌≢◌, refl, ◌∙◌, sym, ap, subst, Bool, true, false,
  inl, inr, Option, none, some, List, [], ◌∷◌, ◌==◌, ltb, arith, Text, length, get_elem?, All,
  Bool-cases,
}
use uagent_harness.Tui.Questions.{
  Slot, Questions, Step, own_row, put, put_note, left, is_done, next_open,
}

-- A row of the question is chosen, and each option has a note.
abbrev pub IsSlot : Slot → Type 0
IsSlot s = (s.choice ≤ length s.options) × (length s.notes ≡ length s.options)

abbrev pub IsDone : Slot → Type 0
IsDone s = s.done ≡ true

-- The note that is written is one of the slot's.
unfoldable pub IsNoting : Option ℕ → Option Slot → Type 0
IsNoting none o = Unit
IsNoting (some i) none = ⊥
IsNoting (some i) (some s) = i < length s.notes

unfoldable pub IsSent : Bool → List Slot → Type 0
IsSent true slots = All IsDone slots
IsSent false slots = Unit

-- A question is shown, its choice and note are in range, and when the answers are sent, every
-- question is done.
unfoldable pub IsReady : Questions → Type 0
IsReady q =
    All IsSlot q.slots
    × ((q.current < length q.slots)
        × (IsNoting q.noting (get_elem? q.slots q.current) × IsSent q.sent q.slots))

unfoldable pub GoesOn : Step → Type 0
GoesOn none = ⊥
GoesOn (some (q, effects)) = IsReady q

pub All-put :
    (P : Slot → Type 0) (slots : List Slot) (i : ℕ) (s : Slot)
    → All P slots
    → P s
    → All P (put slots i s)
unfolding put
All-put P [] i s a p = tt
All-put P (x ∷ slots) zero s (h, a) p = (p, a)
All-put P (x ∷ slots) (suc i) s (h, a) p = (h, All-put P slots i s a p)

pub length-put : (slots : List Slot) (i : ℕ) (s : Slot) → length (put slots i s) ≡ length slots
unfolding put
length-put [] i s = refl
length-put (x ∷ slots) zero s = refl
length-put (x ∷ slots) (suc i) s = ap suc (length-put slots i s)

pub length-put_note :
    (notes : List Text) (i : ℕ) (n : Text) → length (put_note notes i n) ≡ length notes
unfolding put_note
length-put_note [] i n = refl
length-put_note (x ∷ notes) zero n = refl
length-put_note (x ∷ notes) (suc i) n = ap suc (length-put_note notes i n)

pub left-IsSlot : (o : Option ℕ) (draft : Text) (s : Slot) → IsSlot s → IsSlot (left o draft s)
left-IsSlot (some i) draft s h = h
left-IsSlot none draft s h = elim (Bool-cases (own_row s)) [ inl e ↦ rw e h | inr e ↦ rw e h ]

pub left-options : (o : Option ℕ) (draft : Text) (s : Slot) → (left o draft s).options ≡ s.options
left-options (some i) draft s = refl
left-options none draft s = elim (Bool-cases (own_row s)) [ inl e ↦ rw e refl | inr e ↦ rw e refl ]

-- Not sent and no note written.
pub ready :
    (q : Questions)
    → All IsSlot q.slots
    → q.current < length q.slots
    → q.noting ≡ none
    → q.sent ≡ false
    → IsReady q
unfolding IsReady IsNoting IsSent
ready q a l n s = (
  a,
  (
    l,
    (
      subst (λ o. IsNoting o (get_elem? q.slots q.current)) (sym n) tt,
      subst (λ b. IsSent b q.slots) (sym s) tt,
    ),
  ),
)

-- The circle of the other questions.
pub next_open-below :
    (slots : List Slot) (current n i next : ℕ)
    → 0 < length slots
    → next_open slots current n i ≡ some next
    → next < length slots
unfolding next_open
next_open-below slots current zero i next pos h = cc
next_open-below slots current (suc n) i next pos h =
    elim (Bool-cases (is_done (get_elem? slots ((current + 1 + i) % length slots)))) [
      | inl e ↦ next_open-below slots current n (suc i) next pos (rw e at h)
      | inr e ↦
          subst (λ k. k < length slots) (is_some _ next (rw e at h)) (mod-lt (current + 1 + i) pos)
    ]
  where
    is_some : (a b : ℕ) → some a ≡ some b → a ≡ b
    is_some a b e = cc

next_open-done :
    (slots : List Slot) (current n i j : ℕ)
    → next_open slots current n i ≡ none
    → i ≤ j
    → j < i + n
    → is_done (get_elem? slots ((current + 1 + j) % length slots)) ≡ true
unfolding next_open
next_open-done slots current zero i j h lo hi = absurd (omega arith)
next_open-done slots current (suc n) i j h lo hi =
    elim (Bool-cases (is_done (get_elem? slots ((current + 1 + i) % length slots)))) [
      | inr e ↦ absurd (not_none _ (rw e at h))
      | inl e ↦ elim (Bool-cases (i == j)) [
        | inl k ↦
            subst (λ x. is_done (get_elem? slots ((current + 1 + x) % length slots)) ≡ true)
              (ground (arith, k)) e
        | inr k ↦ next_open-done slots current n (suc i) j (rw e at h) (ground arith) (omega arith)
      ]
    ]
  where
    not_none : (k : ℕ) → some k ≢ none
    not_none k x = cc

-- Every position is one of the circle.
around : (n current k : ℕ) → current < n → k < n → (j : ℕ) × (j < n) × ((current + 1 + j) % n ≡ k)
around n current k c l = elim (Bool-cases (ltb current k)) [
  | inl e ↦
      let same : current + 1 + (k - (current + 1)) ≡ k = ground arith in
      (k - (current + 1), omega arith, ap (λ x. x % n) same ∙ mod-eq_of_lt l)
  | inr e ↦
      let same : current + 1 + (n + k - (current + 1)) ≡ k + n = ground arith in
      (
        n + k - (current + 1),
        ground arith,
        ap (λ x. x % n) same ∙ (add-mod_right k n ∙ mod-eq_of_lt l),
      )
]

All-IsDone :
    (slots : List Slot)
    → ((k : ℕ) → k < length slots → is_done (get_elem? slots k) ≡ true)
    → All IsDone slots
All-IsDone [] h = tt
All-IsDone (s ∷ slots) h = (h 0 (omega arith), All-IsDone slots (λ k l. h (suc k) (omega arith)))

pub next_open-All :
    (slots : List Slot) (current : ℕ)
    → current < length slots
    → next_open slots current (length slots) 0 ≡ none
    → All IsDone slots
next_open-All slots current l h = All-IsDone slots (λ k b.
    let (j, c, e) = around (length slots) current k l b in
    subst (λ x. is_done (get_elem? slots x) ≡ true) e
      (next_open-done slots current (length slots) 0 j h (omega arith) (omega arith)))

-- ===== src/Compaction/Elide/Old.antt =====
-- internal/compaction/elide.go: which outputs `elidable` names.
use uagent_harness.Prelude.{
  ℕ, ◌≤◌, ◌<◌, ◌≡◌, ◌≢◌, ◌↔◌, refl, ◌∙◌, sym, ap, true, false, not, ◌&&◌, inl, inr, ◌⊎◌, Option,
  none, some, List, [], ◌∷◌, Text, contains, arith, Bool-cases, if◌then◌else◌, leb, ◌==◌, &&_iff,
  text_eq, text_eq_iff,
}
use uagent_harness.Compaction.Item.{Item, result_id, or_text}
use uagent_harness.Compaction.Tokens.{estimate_tokens}
use uagent_harness.Compaction.Elide.{
  Call, calls_after, Elision, is_old, old_call, to_elide, elidable_loop, elidable, skill_use,
}
use uagent_harness.Compaction.Elide.Calls.{
  NoCall, LastCall, LastCall-found, call-cases, NoCall-call_of,
}

-- Enough calls came later, fewer when it is big, and it is worth a stub.
abbrev pub IsOld : Elision → ℕ → ℕ → Type 0
IsOld e later tokens =
    ((e.after_calls ≤ later)
      ⊎ ((0 < e.big_tokens) × (e.big_tokens < tokens) × (e.big_after_calls ≤ later)))
    × (100 ≤ tokens)

-- An output with this id may be elided: its last call is of a tool that is not SkillUse, is followed by
-- enough calls, and it was not elided before.
abbrev pub IsElidable : Elision → List Item → List Text → Item → Text → Type 0
IsElidable e view elided item id =
    (name : Text) × (arguments : Text) × (later : ℕ) × LastCall view id (name, arguments) later
    × (name ≢ skill_use)
    × IsOld e later (estimate_tokens (item ∷ []))
    × (contains elided id ≡ false)

-- The outputs that may be elided are named, and no others.
pub data Chosen (e : Elision) (view : List Item) (elided : List Text)
    : List Item → List Text → Type 0 where
  nil : Chosen e view elided [] []
  named :
      {item : Item} {items : List Item} {ids : List Text} (id : Text)
      → result_id item.body ≡ some id
      → IsElidable e view elided item id
      → Chosen e view elided items ids
      → Chosen e view elided (item ∷ items) (id ∷ ids)
  passed :
      {item : Item} {items : List Item} {ids : List Text}
      → (((id : Text) × (result_id item.body ≡ some id) × IsElidable e view elided item id) → ⊥)
      → Chosen e view elided items ids
      → Chosen e view elided (item ∷ items) ids

is_old_iff :
    (e : Elision) (later tokens : ℕ) → (is_old e later tokens ≡ true) ↔ IsOld e later tokens
unfolding is_old
is_old_iff e later tokens = (λ h. old h, λ (a, b). is_so a b)
  where
    old : is_old e later tokens ≡ true → IsOld e later tokens
    old h = elim (Bool-cases (leb e.after_calls later)) [
      | inl k ↦ (inl (ground arith), ground arith)
      | inr k ↦ (inr (ground arith, ground arith, ground arith), ground arith)
    ]

    is_so :
        (e.after_calls ≤ later)
          ⊎ ((0 < e.big_tokens) × (e.big_tokens < tokens) × (e.big_after_calls ≤ later))
        → 100 ≤ tokens
        → is_old e later tokens ≡ true
    is_so (inl a) b = ground arith
    is_so (inr (a, c, d)) b = ground arith

old_call_iff :
    (e : Elision) (tokens : ℕ) (name arguments : Text) (later : ℕ)
    → (old_call e tokens (some (name, arguments)) (some later) ≡ true)
      ↔ ((name ≢ skill_use) × IsOld e later tokens)
old_call_iff e tokens name arguments later = (
  λ h.
      let (a, b) = (&&_iff (not (text_eq name skill_use)) _).0 h in
      (λ same. cc (a, (text_eq_iff name skill_use).1 same), (is_old_iff e later tokens).0 b),
  λ (other, old). (&&_iff _ _).1 (
    elim (Bool-cases (text_eq name skill_use)) [
      | inl t ↦ absurd (other ((text_eq_iff name skill_use).0 t))
      | inr t ↦ ap (λ b. not b) t
    ],
    (is_old_iff e later tokens).1 old,
  ),
)

module _ (e : Elision) (view : List Item) (elided : List Text) (item : Item) (id : Text) where
  abbrev tokens : ℕ
  tokens = estimate_tokens (item ∷ [])

  to_elide-called :
      (c : Call) (later : ℕ)
      → LastCall view id c later
      → to_elide e view elided item (some id)
        ≡ (old_call e tokens (some c) (some later) && not (contains elided id))
  to_elide-called c later l =
      let (a, b) = LastCall-found l in
      ap (λ o. old_call e tokens o (calls_after view id) && not (contains elided id)) a
      ∙ ap (λ o. old_call e tokens (some c) o && not (contains elided id)) b

  to_elide-uncalled : NoCall view id → to_elide e view elided item (some id) ≡ false
  to_elide-uncalled n =
      ap (λ o. old_call e tokens o (calls_after view id) && not (contains elided id))
        (NoCall-call_of view id n)

  to_elide-IsElidable :
      to_elide e view elided item (some id) ≡ true → IsElidable e view elided item id
  to_elide-IsElidable h = elim (call-cases view id) [
    | inr n ↦ cc (h, to_elide-uncalled n)
    | inl ((name, arguments), later, l) ↦
        let (a, b) = (&&_iff _ _).0 (sym (to_elide-called (name, arguments) later l) ∙ h) in
        let (other, old) = (old_call_iff e tokens name arguments later).0 a in
        (name, arguments, later, l, other, old, ground arith)
  ]

  IsElidable-to_elide :
      IsElidable e view elided item id → to_elide e view elided item (some id) ≡ true
  IsElidable-to_elide (name, arguments, later, l, other, old, fresh) =
      to_elide-called (name, arguments) later l
      ∙ (&&_iff _ _).1
          ((old_call_iff e tokens name arguments later).1 (other, old), ap (λ b. not b) fresh)

elidable_loop-Chosen :
    (e : Elision) (view : List Item) (elided : List Text) (items : List Item)
    → Chosen e view elided items (elidable_loop e view elided items)
unfolding elidable_loop
elidable_loop-Chosen e view elided [] = nil
elidable_loop-Chosen e view elided (item ∷ items) =
    chosen (result_id item.body) refl _ (elidable_loop-Chosen e view elided items)
  where
    chosen :
        (o : Option Text)
        → result_id item.body ≡ o
        → (rest : List Text) → Chosen e view elided items rest
        → Chosen e view elided
            (item ∷ items)
            (if to_elide e view elided item o then or_text o [] ∷ rest else rest)
    chosen none k rest h = passed (λ (id, is_id, elidable). cc (k, is_id)) h
    chosen (some id) k rest h = elim (Bool-cases (to_elide e view elided item (some id))) [
      | inl t ↦ rw t (named id k (to_elide-IsElidable e view elided item id t) h)
      | inr t ↦ rw t (passed (refuted id k t) h)
    ]
      where
        refuted :
            (id : Text)
            → result_id item.body ≡ some id
            → to_elide e view elided item (some id) ≡ false
            → ((other : Text) × (result_id item.body ≡ some other)
                × IsElidable e view elided item other)
            → ⊥
        refuted id k t (other, k', may) =
            let same : to_elide e view elided item (some other) ≡ true =
              IsElidable-to_elide e view elided item other may in
            cc (ap (λ o. to_elide e view elided item o) (sym k ∙ k'), t, same)

-- With `after_calls` positive, `elidable` names, in their order and one by one, the tool results that
-- may be elided and no others: those whose last call is not of SkillUse, after which at least
-- `after_calls` other calls come, or at least `big_after_calls` when the item takes more than
-- `big_tokens` tokens and that is positive; that take at least 100 tokens; and that were not elided
-- before. With `after_calls` 0 it names none.
pub elidable-Chosen :
    (e : Elision) (view : List Item) (elided : List Text)
    → ((e.after_calls ≡ 0) × (elidable e view elided ≡ []))
      ⊎ ((0 < e.after_calls) × Chosen e view elided view (elidable e view elided))
unfolding elidable
elidable-Chosen e view elided = elim (Bool-cases (e.after_calls == 0)) [
  | inl z ↦ inl (ground arith, rw z)
  | inr z ↦ inr (ground arith, rw z (elidable_loop-Chosen e view elided view))
]

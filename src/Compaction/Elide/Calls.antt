-- ===== src/Compaction/Elide/Calls.antt =====
-- internal/compaction/elide.go: the maps from an id to its last call, and to the calls after it.
use uagent_harness.Prelude.{
  ℕ, ◌+◌, ◌≡◌, ◌≢◌, refl, ◌∙◌, ap, inl, inr, ◌⊎◌, Option, none, some, List, [], ◌∷◌, ◌++◌,
  if◌then◌else◌, arith, Text, text_eq, text_eq_iff, text_eq_refl, length, keep_if, All, Bool-cases,
}
use uagent_harness.Compaction.Item.{
  Item, Body, message, tool_call, tool_result, reasoning, configuration, other_body, call_id,
}
use uagent_harness.Compaction.Cover.{is_call, is_some}
use uagent_harness.Compaction.Elide.{
  Call, call_of, or_call, named, calls_after, count_calls, one_if_call, or_number, is_call_of,
}

-- No item is a call with the id.
abbrev pub NoCall : List Item → Text → Type 0
NoCall items id = All (λ item. call_id item.body ≢ some id) items

-- The last call with an id, and how many calls come after it.
pub record LastCall (view : List Item) (id : Text) (c : Call) (later : ℕ) : Type 0 where
  pub before : List Item
  pub item : Item
  pub after : List Item
  pub whole : view ≡ before ++ (item ∷ after)
  pub called : item.body ≡ tool_call id c.0 c.1
  pub last : NoCall after id
  pub count : length (keep_if is_call after) ≡ later

count_calls_lem : (items : List Item) → count_calls items ≡ length (keep_if is_call items)
unfolding count_calls keep_if
count_calls_lem [] = refl
count_calls_lem (item ∷ items) = counted item (call_id item.body) _ _ (count_calls_lem items)
  where
    counted :
        (x : Item) (o : Option Text) (n : ℕ) (rest : List Item)
        → n ≡ length rest
        → one_if_call o + n ≡ length (if is_some o then x ∷ rest else rest)
    counted x none n rest e = omega arith
    counted x (some id) n rest e = omega arith

-- What one item gives to the two maps.
abbrev aged : Text → List Item → Body → Option ℕ
aged id items b = if is_call_of id (call_id b) then some (count_calls items) else none

call_of-cons_none :
    (item : Item) (items : List Item) (id : Text)
    → call_of items id ≡ none
    → call_of (item ∷ items) id ≡ named id item.body
unfolding call_of
call_of-cons_none item items id e = ap (λ o. or_call o (named id item.body)) e

calls_after-cons_none :
    (item : Item) (items : List Item) (id : Text)
    → calls_after items id ≡ none
    → calls_after (item ∷ items) id ≡ aged id items item.body
unfolding calls_after
calls_after-cons_none item items id e = ap (λ o. or_number o (aged id items item.body)) e

named-other : (id : Text) (b : Body) → call_id b ≢ some id → named id b ≡ none
named-other id (tool_call other name arguments) h = elim (Bool-cases (text_eq other id)) [
  | inl t ↦ absurd (h (ap (λ x. some x) ((text_eq_iff other id).0 t)))
  | inr t ↦ rw t
]
named-other id (message r t) h = refl
named-other id (tool_result i o) h = refl
named-other id (reasoning r) h = refl
named-other id (configuration c) h = refl
named-other id other_body h = refl

aged-other :
    (id : Text) (items : List Item) (b : Body) → call_id b ≢ some id → aged id items b ≡ none
aged-other id items (tool_call other name arguments) h = elim (Bool-cases (text_eq other id)) [
  | inl t ↦ absurd (h (ap (λ x. some x) ((text_eq_iff other id).0 t)))
  | inr t ↦ rw t
]
aged-other id items (message r t) h = refl
aged-other id items (tool_result i o) h = refl
aged-other id items (reasoning r) h = refl
aged-other id items (configuration c) h = refl
aged-other id items other_body h = refl

NoCall-none :
    (items : List Item) (id : Text)
    → NoCall items id
    → (call_of items id ≡ none) × (calls_after items id ≡ none)
unfolding call_of calls_after
NoCall-none [] id h = (refl, refl)
NoCall-none (item ∷ items) id (h, rest) =
    let (e, k) = NoCall-none items id rest in
    (
      call_of-cons_none item items id e ∙ named-other id item.body h,
      calls_after-cons_none item items id k ∙ aged-other id items item.body h,
    )

call_of-append :
    (xs ys : List Item) (id : Text) (c : Call)
    → call_of ys id ≡ some c
    → call_of (xs ++ ys) id ≡ some c
unfolding call_of
call_of-append [] ys id c h = h
call_of-append (x ∷ xs) ys id c h =
    ap (λ o. or_call o (named id x.body)) (call_of-append xs ys id c h)

calls_after-append :
    (xs ys : List Item) (id : Text) (n : ℕ)
    → calls_after ys id ≡ some n
    → calls_after (xs ++ ys) id ≡ some n
unfolding calls_after
calls_after-append [] ys id n h = h
calls_after-append (x ∷ xs) ys id n h =
    ap (λ o. or_number o (aged id (xs ++ ys) x.body)) (calls_after-append xs ys id n h)

named_self : (id : Text) (c : Call) → named id (tool_call id c.0 c.1) ≡ some c
named_self id c = rw (text_eq_refl id)

aged_self :
    (id : Text) (items : List Item) (c : Call)
    → aged id items (tool_call id c.0 c.1) ≡ some (count_calls items)
aged_self id items c = rw (text_eq_refl id)

-- The maps hold the last call with the id and the number of calls after it.
pub LastCall-found :
    {view : List Item} {id : Text} {c : Call} {n : ℕ}
    → LastCall view id c n
    → (call_of view id ≡ some c) × (calls_after view id ≡ some n)
LastCall-found {view} {id} {c} {n} l =
    let (e, k) = NoCall-none l.after id l.last in
    (
      ap (λ v. call_of v id) l.whole
          ∙ call_of-append l.before (l.item ∷ l.after) id c
              (call_of-cons_none l.item l.after id e ∙ ap (named id) l.called ∙ named_self id c),
      ap (λ v. calls_after v id) l.whole
          ∙ calls_after-append l.before (l.item ∷ l.after) id n (
              calls_after-cons_none l.item l.after id k
              ∙ ap (aged id l.after) l.called
              ∙ aged_self id l.after c
              ∙ ap (λ m. some m) (count_calls_lem l.after ∙ l.count)),
    )

abbrev pub FoundCall : List Item → Text → Type 0
FoundCall view id = (c : Call) × (n : ℕ) × LastCall view id c n

found-cons :
    (item : Item) (items : List Item) (id : Text) → FoundCall items id → FoundCall (item ∷ items) id
found-cons item items id (c, n, l) = (
  c,
  n,
  record {
    before = item ∷ l.before;
    item = l.item;
    after = l.after;
    whole = ap (λ v. item ∷ v) l.whole;
    called = l.called;
    last = l.last;
    count = l.count;
  },
)

found_here :
    (item : Item) (items : List Item) (id : Text) (b : Body)
    → item.body ≡ b
    → NoCall items id
    → FoundCall (item ∷ items) id ⊎ (call_id b ≢ some id)
found_here item items id (tool_call other name arguments) e h =
    elim (Bool-cases (text_eq other id)) [
      | inl t ↦ inl (
        (name, arguments),
        length (keep_if is_call items),
        record {
          before = [];
          item = item;
          after = items;
          whole = refl;
          called = e ∙ ap (λ x. tool_call x name arguments) ((text_eq_iff other id).0 t);
          last = h;
          count = refl;
        },
      )
      | inr t ↦ inr (λ k. cc (text_eq_refl id, t, k))
    ]
found_here item items id (message r t) e h = inr (λ k. cc k)
found_here item items id (tool_result i o) e h = inr (λ k. cc k)
found_here item items id (reasoning r) e h = inr (λ k. cc k)
found_here item items id (configuration c) e h = inr (λ k. cc k)
found_here item items id other_body e h = inr (λ k. cc k)

pub call-cases : (view : List Item) (id : Text) → FoundCall view id ⊎ NoCall view id
call-cases [] id = inr tt
call-cases (item ∷ items) id = elim (call-cases items id) [
  | inl f ↦ inl (found-cons item items id f)
  | inr h ↦ elim (found_here item items id item.body refl h) [
    | inl f ↦ inl f
    | inr other ↦ inr (other, h)
  ]
]

pub NoCall-call_of : (items : List Item) (id : Text) → NoCall items id → call_of items id ≡ none
NoCall-call_of items id h = (NoCall-none items id h).0

-- ===== src/Compaction/Record/Paired.antt =====
-- internal/compaction: every tool result that the model sees after a compaction has its call.
use mathlib.Core.List.{reverse}
use uagent_harness.Prelude.{
  ℕ, suc, ◌+◌, ◌-◌, ◌<◌, ◌≡◌, refl, sym, ap, subst, Bool, true, false, inl, inr, Option, none, some,
  List, [], ◌∷◌, ◌++◌, ◌==◌, ltb, if◌then◌else◌, arith, Text, text_eq, contains,
  contains-append_right, length, take, drop, All, All-append, All-keep_if, All-map, append_assoc,
  Bool-cases,
}
use uagent_harness.Compaction.Item.{
  Item, Body, Output, message, tool_call, tool_result, reasoning, configuration, other_body,
  result_id, call_id, is_user_message, is_developer_message, developer,
}
use uagent_harness.Compaction.Keep.{is_wanted, truncated, message_tokens, kept_loop, kept}
use uagent_harness.Compaction.Elide.{elide, elide_loop}
use uagent_harness.Compaction.Record.{
  Record, Codec, Result, ok, hash_of, checked, replaced, apply, call_ids, attached, detach_loop,
  detach_orphans, orphan_note, summary_items, summary_message, summary_for, ledger_items,
}

-- No tool result.
abbrev pub IsNoResult : Item → Type 0
IsNoResult item = result_id item.body ≡ none

abbrev pub Named : List Text → Option Text → Type 0
Named calls none = Unit
Named calls (some id) = contains calls id ≡ true

-- A tool result only with its call among those with the ids.
abbrev pub HasCall : List Text → Item → Type 0
HasCall calls item = Named calls (result_id item.body)

-- `HasCall` by the item's body.
pub has_call :
    (calls : List Text) (item : Item) (b : Body)
    → item.body ≡ b
    → Named calls (result_id b)
    → HasCall calls item
has_call calls item b e h = subst (λ x. Named calls (result_id x)) (sym e) h

IsNoResult-HasCall : (calls : List Text) (item : Item) → IsNoResult item → HasCall calls item
IsNoResult-HasCall calls item h = subst (Named calls) (sym h) tt

no_result :
    (p : Item → Bool) (item : Item) (b : Body)
    → ((id : Text) (outputs : List Output) → item.body ≡ tool_result id outputs → p item ≡ false)
    → item.body ≡ b
    → p item ≡ true
    → result_id b ≡ none
no_result p item (tool_result id outputs) f e h = cc (f id outputs e)
no_result p item (message r t) f e h = refl
no_result p item (tool_call i n a) f e h = refl
no_result p item (reasoning r) f e h = refl
no_result p item (configuration c) f e h = refl
no_result p item other_body f e h = refl

developer-IsNoResult : (item : Item) → is_developer_message item ≡ true → IsNoResult item
unfolding is_developer_message
developer-IsNoResult item h =
    no_result is_developer_message item item.body (λ id outputs e. ground arith) refl h

is_wanted-IsNoResult : (item : Item) → is_wanted item ≡ true → IsNoResult item
unfolding is_wanted is_user_message
is_wanted-IsNoResult item h =
    no_result is_wanted item item.body (λ id outputs e. ground arith) refl h

truncated-IsNoResult : (item : Item) (n : ℕ) → IsNoResult item → IsNoResult (truncated item n)
unfolding truncated
truncated-IsNoResult item n h = ground arith

kept_loop-IsNoResult :
    (items : List Item) (n : ℕ) (picked : List Item)
    → All IsNoResult picked
    → All IsNoResult (kept_loop items n picked)
unfolding kept_loop
kept_loop-IsNoResult [] n picked h = h
kept_loop-IsNoResult (item ∷ items) n picked h = elim (Bool-cases (n == 0)) [
  | inl z ↦ rw z h
  | inr z ↦ elim (Bool-cases (is_wanted item)) [
    | inr u ↦ rw (z, u) (kept_loop-IsNoResult items n picked h)
    | inl u ↦
        let k = is_wanted-IsNoResult item u in
        elim (Bool-cases (ltb n (message_tokens item))) [
          | inl l ↦
              rw (z, u, l)
                (kept_loop-IsNoResult items 0 (truncated item n ∷ picked)
                  (truncated-IsNoResult item n k, h))
          | inr l ↦
              rw (z, u, l)
                (kept_loop-IsNoResult items (n - message_tokens item) (item ∷ picked) (k, h))
        ]
  ]
]

kept-IsNoResult : (covered : List Item) (n : ℕ) → All IsNoResult (kept covered n)
unfolding kept
kept-IsNoResult covered n = kept_loop-IsNoResult (reverse covered) n [] tt

ledger_items-IsNoResult : (ledger : Text) → All IsNoResult (ledger_items ledger)
ledger_items-IsNoResult [] = tt
ledger_items-IsNoResult (c ∷ ledger) = (refl, tt)

summary_for-IsNoResult :
    (codec : Codec) (r : Record) (remote : Text) → All IsNoResult (summary_for codec r remote)
unfolding summary_message
summary_for-IsNoResult codec r [] = (refl, tt)
summary_for-IsNoResult codec r (c ∷ remote) = (refl, ledger_items-IsNoResult r.ledger)

summary-IsNoResult :
    (codec : Codec) (r : Record) (b : Bool)
    → All IsNoResult (if b then summary_items codec r else [])
unfolding summary_items
summary-IsNoResult codec r true = summary_for-IsNoResult codec r r.remote
summary-IsNoResult codec r false = tt

attached-call_id :
    (calls : List Text) (item : Item) (b : Body)
    → item.body ≡ b
    → call_id (attached calls item b).body ≡ call_id b
unfolding orphan_note
attached-call_id calls item (tool_result id outputs) e = elim (Bool-cases (contains calls id)) [
  | inl k ↦ rw k (ap call_id e)
  | inr k ↦ rw k
]
attached-call_id calls item (message r t) e = ap call_id e
attached-call_id calls item (tool_call i n a) e = ap call_id e
attached-call_id calls item (reasoning r) e = ap call_id e
attached-call_id calls item (configuration c) e = ap call_id e
attached-call_id calls item other_body e = ap call_id e

call_ids-detach_loop :
    (calls : List Text) (items : List Item) → call_ids (detach_loop calls items) ≡ call_ids items
unfolding call_ids detach_loop
call_ids-detach_loop calls [] = refl
call_ids-detach_loop calls (item ∷ items) =
    rw (attached-call_id calls item item.body refl, call_ids-detach_loop calls items)

attached-HasCall :
    (calls : List Text) (item : Item) (b : Body)
    → item.body ≡ b
    → HasCall calls (attached calls item b)
unfolding orphan_note
attached-HasCall calls item (tool_result id outputs) e = elim (Bool-cases (contains calls id)) [
  | inl k ↦ rw k (subst (λ x. Named calls (result_id x)) (sym e) k)
  | inr k ↦ rw k tt
]
attached-HasCall calls item (message r t) e = subst (λ x. Named calls (result_id x)) (sym e) tt
attached-HasCall calls item (tool_call i n a) e = subst (λ x. Named calls (result_id x)) (sym e) tt
attached-HasCall calls item (reasoning r) e = subst (λ x. Named calls (result_id x)) (sym e) tt
attached-HasCall calls item (configuration c) e = subst (λ x. Named calls (result_id x)) (sym e) tt
attached-HasCall calls item other_body e = subst (λ x. Named calls (result_id x)) (sym e) tt

detach_loop-HasCall :
    (calls : List Text) (items : List Item) → All (HasCall calls) (detach_loop calls items)
unfolding detach_loop
detach_loop-HasCall calls [] = tt
detach_loop-HasCall calls (item ∷ items) =
    (attached-HasCall calls item item.body refl, detach_loop-HasCall calls items)

call_ids-append : (xs ys : List Item) → call_ids (xs ++ ys) ≡ call_ids xs ++ call_ids ys
unfolding call_ids
call_ids-append [] ys = refl
call_ids-append (x ∷ xs) ys = rw (call_ids-append xs ys, append_assoc)

-- Every tool result of the list has its call in the list.
abbrev pub ArePaired : List Item → Type 0
ArePaired items = All (HasCall (call_ids items)) items

detach_orphans-ArePaired : (items : List Item) → ArePaired (detach_orphans items)
unfolding detach_orphans
detach_orphans-ArePaired items =
    subst (λ ids. All (HasCall ids) (detach_loop (call_ids items) items))
      (sym (call_ids-detach_loop (call_ids items) items))
      (detach_loop-HasCall (call_ids items) items)

Named-append : (ids more : List Text) (o : Option Text) → Named more o → Named (ids ++ more) o
Named-append ids more none h = tt
Named-append ids more (some id) h = contains-append_right ids more id h

-- Items without results keep a list paired.
ArePaired-append : (xs ys : List Item) → All IsNoResult xs → ArePaired ys → ArePaired (xs ++ ys)
ArePaired-append xs ys h k =
    All-append _ xs ys
      (All-map IsNoResult (HasCall (call_ids (xs ++ ys))) xs
        (IsNoResult-HasCall (call_ids (xs ++ ys))) h)
      (All-map (HasCall (call_ids ys)) (HasCall (call_ids (xs ++ ys))) ys
        (λ item n.
          subst (λ ids. HasCall ids item) (sym (call_ids-append xs ys))
            (Named-append (call_ids xs) (call_ids ys) (result_id item.body) n))
        k)

-- The items after the first one.
abbrev pub rest_of : List Item → List Item
rest_of [] = []
rest_of (first ∷ items) = items

abbrev PairedResult : Result (List Item) → Type 0
PairedResult (ok out) = ArePaired (rest_of out)
PairedResult _ = Unit

replaced-ArePaired :
    (codec : Codec) (r : Record) (first : Item) (covered tail : List Item)
    → ArePaired (rest_of (replaced codec r first covered tail))
unfolding replaced developer
replaced-ArePaired codec r first covered tail =
    ArePaired-append _ _ (All-keep_if IsNoResult is_developer_message covered developer-IsNoResult)
      (ArePaired-append _ _ (kept-IsNoResult _ _) (
        ArePaired-append _ _ (summary-IsNoResult codec r (ltb r.floor r.covered))
          (detach_orphans-ArePaired _)))

checked-PairedResult :
    (codec : Codec) (r : Record) (first : Item) (covered tail : List Item) (o : Option Text)
    → PairedResult (checked codec r first covered tail o)
checked-PairedResult codec r first covered tail none = tt
checked-PairedResult codec r first covered tail (some hash) =
    elim (Bool-cases (text_eq hash r.hash)) [
      | inl e ↦ rw e (replaced-ArePaired codec r first covered tail)
      | inr e ↦ rw e tt
    ]

elide_nothing : (codec : Codec) (ids : List Text) → elide codec.readers [] ids ≡ []
unfolding elide elide_loop
elide_nothing codec [] = refl
elide_nothing codec (id ∷ ids) = refl

apply-PairedResult :
    (codec : Codec) (input : List Item) (r : Record)
    → 0 < r.covered
    → PairedResult (apply codec input r)
unfolding apply
apply-PairedResult codec [] r pos =
    subst (λ l. ArePaired (rest_of l)) (sym (elide_nothing codec r.elided)) tt
apply-PairedResult codec (first ∷ items) r pos = elim (Bool-cases (r.covered == 0)) [
  | inl z ↦ absurd (ground arith)
  | inr z ↦ elim (Bool-cases (ltb (suc (length items)) (1 + r.covered))) [
    | inl l ↦ rw (z, l) tt
    | inr l ↦
        rw (z, l)
          (checked-PairedResult codec r first (take r.covered items) (drop r.covered items)
            (hash_of codec (take r.covered items)))
  ]
]

-- After a compaction that covers something, every tool result that the model sees after the first
-- item has its call there too: no provider is sent an output without its call.
pub apply-ArePaired :
    (codec : Codec) (input : List Item) (r : Record) (out : List Item)
    → 0 < r.covered
    → apply codec input r ≡ ok out
    → ArePaired (rest_of out)
apply-ArePaired codec input r out pos h =
    subst PairedResult h (apply-PairedResult codec input r pos)

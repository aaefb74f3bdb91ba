-- ===== src/Compaction/Record/Applies.antt =====
-- internal/compaction/compaction.go: a record applies to the history that it was made from, and to
-- every later one.
use uagent_harness.Prelude.{
  ℕ, suc, ◌+◌, ◌≤◌, ◌<◌, ◌≡◌, ◌≢◌, refl, ◌∙◌, sym, ap, true, false, inl, inr, ◌⊎◌, Option, none,
  some, List, [], ◌∷◌, ◌++◌, ◌==◌, ltb, arith, Text, codes, text_eq_refl, trim_space, contains,
  keep_if, length, length-append, length-take, take, drop, take-append, drop-append,
  take-append-drop, append_assoc, Bool-cases,
}
use uagent_harness.Compaction.Item.{
  Item, Body, Output, message, tool_call, tool_result, reasoning, configuration, other_body,
  is_developer_message, developer, user_text,
}
use uagent_harness.Compaction.Keep.{kept}
use uagent_harness.Compaction.Elide.{elide, join_lines}
use uagent_harness.Compaction.Cover.{coverable}
use uagent_harness.Compaction.Cover.Bounds.{coverable-At}
use uagent_harness.Compaction.Record.{
  Trigger, Record, Codec, Result, ok, hash_of, replaced, apply, recorded, new_record_covering,
  new_record, call_ids, attached, detach_loop, detach_orphans, orphan_note, output_texts,
  or_summary, keep_tokens, summary_items, summary_text, summary_message,
}
use uagent_harness.Compaction.Record.Paired.{HasCall, has_call}

apply-tests :
    (codec : Codec) (first : Item) (items covered tail : List Item) (r : Record)
    → (r.covered == 0) ≡ false
    → ltb (suc (length items)) (1 + r.covered) ≡ false
    → take r.covered items ≡ covered
    → drop r.covered items ≡ tail
    → hash_of codec covered ≡ some r.hash
    → apply codec (first ∷ items) r ≡ ok (replaced codec r first covered tail)
unfolding apply
apply-tests codec first items covered tail r a b c d h = rw (a, b, c, d, h, text_eq_refl r.hash)

apply-covering :
    (codec : Codec) (first : Item) (covered tail : List Item) (r : Record)
    → r.covered ≡ length covered
    → 0 < length covered
    → hash_of codec covered ≡ some r.hash
    → apply codec (first ∷ (covered ++ tail)) r ≡ ok (replaced codec r first covered tail)
apply-covering codec first covered tail r e pos h =
    apply-tests codec first (covered ++ tail) covered tail r (ground arith)
      (ground (arith, length-append covered tail))
      (ap (λ n. take n (covered ++ tail)) e ∙ take-append covered tail)
      (ap (λ n. drop n (covered ++ tail)) e ∙ drop-append covered tail) h

-- The record of a summary, with the hash of what it covers.
abbrev fresh : ℕ → Text → Trigger → Text → ℕ → Text → Record
fresh covered summary trigger model made_at hash = record {
  covered = covered;
  floor = 0;
  hash = hash;
  summary = summary;
  trigger = trigger;
  model = model;
  made_at = made_at;
  keep = 0;
  focus = [];
  elided = [];
  remote = [];
  ledger = [];
}

recorded-fresh :
    (codec : Codec) (covered : ℕ) (summary : Text) (trigger : Trigger) (model : Text) (made_at : ℕ)
    (o : Option Text) (r : Record)
    → recorded codec covered summary trigger model made_at o ≡ ok r
    → (hash : Text) × (o ≡ some hash) × (r ≡ fresh covered summary trigger model made_at hash)
recorded-fresh codec covered summary trigger model made_at none r h = cc
recorded-fresh codec covered summary trigger model made_at (some hash) r h =
    (hash, refl, sym (ap record_of h))
  where
    record_of : Result Record → Record
    record_of (ok x) = x
    record_of _ = fresh covered summary trigger model made_at hash

-- Item by item, a tool result without its call among the items is a user message with its text.
pub data Detached (calls : List Text) : List Item → List Item → Type 0 where
  nil : Detached calls [] []
  same :
      {item : Item} {items seen : List Item}
      → HasCall calls item
      → Detached calls items seen
      → Detached calls (item ∷ items) (item ∷ seen)
  noted :
      {item : Item} {items seen : List Item} (id : Text) (outputs : List Output)
      → item.body ≡ tool_result id outputs
      → contains calls id ≡ false
      → Detached calls items seen
      → Detached calls (item ∷ items) (
          user_text (
            codes "Output of the earlier tool call "
            ++ (id ++ (codes ", which the summary covers:\n" ++ join_lines (output_texts outputs))))
          ∷ seen)

attached-Detached :
    (calls : List Text) (item : Item) (items seen : List Item) (b : Body)
    → item.body ≡ b
    → Detached calls items seen
    → Detached calls (item ∷ items) (attached calls item b ∷ seen)
unfolding orphan_note
attached-Detached calls item items seen (tool_result id outputs) e h =
    elim (Bool-cases (contains calls id)) [
      | inl k ↦ rw k (same (has_call calls item _ e k) h)
      | inr k ↦ rw k (noted id outputs e k h)
    ]
attached-Detached calls item items seen (message r t) e h = same (has_call calls item _ e tt) h
attached-Detached calls item items seen (tool_call i n a) e h = same (has_call calls item _ e tt) h
attached-Detached calls item items seen (reasoning r) e h = same (has_call calls item _ e tt) h
attached-Detached calls item items seen (configuration c) e h = same (has_call calls item _ e tt) h
attached-Detached calls item items seen other_body e h = same (has_call calls item _ e tt) h

detach_loop-Detached :
    (calls : List Text) (items : List Item) → Detached calls items (detach_loop calls items)
unfolding detach_loop
detach_loop-Detached calls [] = nil
detach_loop-Detached calls (item ∷ items) =
    attached-Detached calls item items _ item.body refl (detach_loop-Detached calls items)

-- What the model reads as the summary.
abbrev pub IsShown : Text → Text → Type 0
IsShown summary shown =
    ((trim_space summary ≡ []) × (shown ≡ codes "(no summary available)"))
    ⊎ ((trim_space summary ≢ []) × (shown ≡ summary))

or_summary-IsShown :
    (summary trimmed : Text)
    → trim_space summary ≡ trimmed
    → IsShown summary (or_summary trimmed summary)
or_summary-IsShown summary [] e = inl (e, refl)
or_summary-IsShown summary (c ∷ s) e = inr (λ k. cc (e, k), refl)

-- What the model sees: the first item, the developer messages and the newest user messages of the
-- covered items, the summary, and the items after the covered ones.
abbrev pub IsView : Codec → Text → Item → List Item → List Item → List Item → Type 0
IsView codec summary first covered tail view =
    (shown : Text) × (seen : List Item) × IsShown summary shown
    × Detached (call_ids tail) tail seen
    × (view
        ≡ first
          ∷ (keep_if is_developer_message covered
              ++ (kept covered 20000 ++ (user_text (codec.summary_prefix ++ (10 ∷ shown)) ∷ seen))))

replaced-IsView :
    (codec : Codec) (n : ℕ) (summary : Text) (trigger : Trigger) (model : Text) (made_at : ℕ)
    (hash : Text) (first : Item) (covered tail : List Item)
    → 0 < n
    → IsView codec summary first covered tail
        (replaced codec (fresh n summary trigger model made_at hash) first covered tail)
unfolding replaced developer keep_tokens summary_items summary_text summary_message elide
    detach_orphans
replaced-IsView codec n summary trigger model made_at hash first covered tail pos =
    let some_covered : ltb 0 n ≡ true = ground arith in
    (
      or_summary (trim_space summary) summary,
      detach_loop (call_ids tail) tail,
      or_summary-IsShown summary (trim_space summary) refl,
      detach_loop-Detached (call_ids tail) tail,
      rw some_covered,
    )

-- A record that covers something applies to the history that it was made from, also when more items
-- were added. The result is the first item, then of the items that `Coverable` counts the developer
-- messages and the user messages that `Kept` keeps with a cap of 20000 tokens, then the summary as a
-- user message, or a note when it is blank, and then the items after the covered ones, where each
-- tool result whose call is not among them is a note with its text.
pub apply-new_record :
    (codec : Codec) (first : Item) (items more : List Item) (summary : Text) (trigger : Trigger)
    (model : Text) (made_at : ℕ) (r : Record)
    → new_record codec (first ∷ items) summary trigger model made_at ≡ ok r
    → 0 < r.covered
    → (covered tail view : List Item) × (items ≡ covered ++ tail)
      × (length covered ≡ coverable (first ∷ items))
      × (apply codec (first ∷ (items ++ more)) r ≡ ok view)
      × IsView codec summary first covered (tail ++ more) view
unfolding new_record new_record_covering
apply-new_record codec first items more summary trigger model made_at r h pos =
    let n = coverable (first ∷ items) in
    let le : n ≤ length items = omega (arith, (coverable-At (first ∷ items)).0) in
    let in_range : ltb (suc (length items)) (1 + n) ≡ false = ground arith in
    let made : recorded codec n summary trigger model made_at (hash_of codec (take n items))
        ≡ ok r =
      rw in_range at h in
    let (hash, k, e) =
      recorded-fresh codec n summary trigger model made_at (hash_of codec (take n items)) r made in
    let size : length (take n items) ≡ n = length-take n items le in
    let covers : r.covered ≡ n = ap (λ x. x.covered) e in
    let some_covered : 0 < n = omega arith in
    let applies : apply codec (first ∷ (take n items ++ (drop n items ++ more)))
          (fresh n summary trigger model made_at hash)
        ≡ ok (
            replaced codec (fresh n summary trigger model made_at hash) first (take n items)
              (drop n items ++ more)) =
      apply-covering codec first (take n items) (drop n items ++ more)
        (fresh n summary trigger model made_at hash) (sym size) (omega arith) k in
    (
      take n items,
      drop n items,
      replaced codec (fresh n summary trigger model made_at hash) first (take n items)
          (drop n items ++ more),
      sym (take-append-drop n items),
      size,
      ap (λ x. apply codec (first ∷ (items ++ more)) x) e
          ∙ ap (λ l. apply codec (first ∷ l) (fresh n summary trigger model made_at hash))
              (ap (λ l. l ++ more) (sym (take-append-drop n items))
                ∙ append_assoc (take n items) (drop n items) more)
          ∙ applies,
      replaced-IsView codec n summary trigger model made_at hash first (take n items)
          (drop n items ++ more) some_covered,
    )

-- ===== src/Compaction/Summary/Trims.antt =====
-- internal/compaction/summary.go: what `trim` leaves.
use uagent_harness.Prelude.{
  ℕ, ◌-◌, ◌≤◌, ◌<◌, ◌≡◌, refl, sym, ap, subst, true, inl, inr, ◌⊎◌, List, [], ◌∷◌, ◌++◌, ◌==◌, ltb,
  arith, length, length-append, Bool-cases,
}
use uagent_harness.Compaction.Item.{Item}
use uagent_harness.Compaction.Tokens.{estimate_tokens}
use uagent_harness.Compaction.Record.{detach_orphans}
use uagent_harness.Compaction.Summary.{trim_loop, trim}

-- The last of the dropped items was one too many.
abbrev pub IsNeeded : List Item → List Item → ℕ → Type 0
IsNeeded dropped kept budget =
    (dropped ≡ [])
    ⊎ ((before : List Item) × (last : Item) × (dropped ≡ before ++ last ∷ [])
        × (budget < estimate_tokens (last ∷ kept)))

-- The first items are dropped, no more than needed; the rest is within the budget or one item, and is
-- not empty unless all items are.
abbrev pub Fits : List Item → ℕ → List Item → Type 0
Fits items budget kept =
    (dropped : List Item) × (items ≡ dropped ++ kept)
    × ((estimate_tokens kept ≤ budget) ⊎ (length kept ≤ 1))
    × IsNeeded dropped kept budget
    × ((items ≡ []) ⊎ (1 ≤ length kept))

IsNeeded-cons :
    (item : Item) (dropped kept : List Item) (budget : ℕ)
    → budget < estimate_tokens (item ∷ (dropped ++ kept))
    → IsNeeded dropped kept budget
    → IsNeeded (item ∷ dropped) kept budget
IsNeeded-cons item dropped kept budget h (inl e) =
    inr (
      [],
      item,
      ap (λ l. item ∷ l) e,
      subst (λ l. budget < estimate_tokens (item ∷ (l ++ kept))) e h,
    )
IsNeeded-cons item dropped kept budget h (inr (before, last, e, big)) =
    inr (item ∷ before, last, ap (λ l. item ∷ l) e, big)

trim_loop-Fits :
    (items : List Item) (total budget : ℕ)
    → total ≡ estimate_tokens items
    → Fits items budget (trim_loop items total budget)
unfolding trim_loop estimate_tokens
trim_loop-Fits [] total budget e = ([], refl, inr (omega arith), inl refl, inl refl)
trim_loop-Fits (item ∷ []) total budget e =
    ([], refl, inr (omega arith), inl refl, inr (omega arith))
trim_loop-Fits (item ∷ next ∷ items) total budget e = elim (Bool-cases (ltb budget total)) [
  | inr l ↦ rw l ([], refl, inl (ground arith), inl refl, inr (omega arith))
  | inl l ↦
      let (dropped, eq, fits, needed, left) =
        trim_loop-Fits (next ∷ items) (total - estimate_tokens (item ∷ [])) budget (omega arith) in
      rw l (
        item ∷ dropped,
        ap (λ l. item ∷ l) eq,
        fits,
        IsNeeded-cons item dropped _ budget
            (subst (λ l. budget < estimate_tokens (item ∷ l)) eq (ground arith)) needed,
        inr (elim left [
          | inl none ↦ absurd (ground (arith, ap (λ l. length l) none))
          | inr some_left ↦ some_left
        ]),
      )
]

-- Trimming drops the oldest items, no more than it takes to bring the estimate within the budget, and
-- keeps at least the last one when there is any; when it drops some, results without their call
-- become notes.
pub trim-Fits :
    (items : List Item) (budget : ℕ)
    → (kept : List Item) × Fits items budget kept
      × (((kept ≡ items) × (trim items budget ≡ items)) ⊎ (trim items budget ≡ detach_orphans kept))
unfolding trim
trim-Fits items budget =
    let kept = trim_loop items (estimate_tokens items) budget in
    let fits = trim_loop-Fits items (estimate_tokens items) budget refl in
    let (dropped, eq, small, needed, left) = fits in
    (
      kept,
      fits,
      elim (Bool-cases (length kept == length items)) [
        | inr e ↦ inr (rw e)
        | inl e ↦ inl (whole kept dropped eq e, rw e)
      ],
    )
  where
    whole :
        (kept dropped : List Item)
        → items ≡ dropped ++ kept
        → (length kept == length items) ≡ true
        → kept ≡ items
    whole kept [] h e = sym h
    whole kept (d ∷ dropped) h e =
        let size = ap (λ l. length l) h in absurd (ground (arith, length-append dropped kept))

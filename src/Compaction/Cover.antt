-- ===== src/Compaction/Cover.antt =====
-- internal/compaction/compaction.go: how many items after the first one a compaction covers.
pub mod Bounds
use uagent_harness.Prelude.{
  ℕ, zero, suc, ◌+◌, ◌-◌, Bool, true, false, Option, none, some, List, ◌==◌, ltb, if◌then◌else◌,
  length, get_elem?,
}
use uagent_harness.Compaction.Item.{Item, Body, is_user_message, model_generated, call_id}

abbrev pub holds_of : (Item → Bool) → Option Item → Bool
holds_of p none = false
holds_of p (some item) = p item

abbrev pub is_some : Option (List ℕ) → Bool
is_some none = false
is_some (some id) = true

abbrev pub is_call : Item → Bool
is_call item = is_some (call_id item.body)

-- The loop of `Coverable`, from position `n` down.
pub coverable_loop : List Item → ℕ → ℕ
coverable_loop input zero = 0
coverable_loop input (suc n) =
    let earlier = coverable_loop input n in
    if holds_of is_user_message (get_elem? input (suc n)) then earlier else suc n

unfoldable pub coverable : List Item → ℕ
unfolding coverable_loop
coverable input = coverable_loop input (length input - 1)

-- Goes back over items until `calls` tool calls were seen; the position and how many were.
pub keeping_loop : List Item → ℕ → ℕ → ℕ → ℕ × ℕ
keeping_loop input calls zero seen = (0, seen)
keeping_loop input calls (suc i) seen =
    let after_call = keeping_loop input calls i (seen + 1) in
    let after_other = keeping_loop input calls i seen in
    if ltb seen calls
    then (if holds_of is_call (get_elem? input (suc i)) then after_call else after_other)
    else (suc i, seen)

-- Goes back over the items that the model made.
pub before_model : List Item → ℕ → ℕ
before_model input zero = 0
before_model input (suc i) =
    let earlier = before_model input i in
    if holds_of model_generated (get_elem? input (suc i)) then earlier else suc i

unfoldable pub coverable_keeping : List Item → ℕ → ℕ
unfolding keeping_loop before_model
coverable_keeping input calls =
    let n = coverable input in
    let (i, seen) = keeping_loop input calls n 0 in
    if calls == 0 then n else if ltb seen calls then 0 else before_model input i

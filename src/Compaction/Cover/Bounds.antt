-- ===== src/Compaction/Cover/Bounds.antt =====
-- internal/compaction/compaction.go: what stays after the covered items.
use uagent_harness.Prelude.{
  ℕ, zero, suc, ◌+◌, ◌-◌, ◌≤◌, ◌<◌, ◌≡◌, ◌⊎◌, refl, Bool, true, false, inl, inr, List, ◌==◌,
  if◌then◌else◌, arith, length, get_elem?, Bool-cases,
}
use uagent_harness.Compaction.Item.{Item, is_user_message}
use uagent_harness.Compaction.Cover.{holds_of, is_call, coverable_loop, coverable}

abbrev pub At : (Item → Bool) → List Item → ℕ → Bool → Type 0
At p input i b = holds_of p (get_elem? input i) ≡ b

coverable_loop-At :
    (input : List Item) (n : ℕ)
    → (coverable_loop input n ≤ n)
      × ((coverable_loop input n ≡ 0) ⊎ At is_user_message input (coverable_loop input n) false)
      × ((i : ℕ) → coverable_loop input n < i → i ≤ n → At is_user_message input i true)
unfolding coverable_loop
coverable_loop-At input zero = (omega arith, inl refl, λ i a b. absurd (omega arith))
coverable_loop-At input (suc n) =
    elim (Bool-cases (holds_of is_user_message (get_elem? input (suc n)))) [
      | inl e ↦
          let (le, start, users) = coverable_loop-At input n in
          rw e (
            omega arith,
            start,
            λ i a b. elim (Bool-cases (i == suc n)) [
              | inl z ↦ ground arith
              | inr z ↦ users i a (ground arith)
            ],
          )
      | inr e ↦ rw e (omega arith, inr e, λ i a b. absurd (omega arith))
    ]

-- The covered items end before the user's messages at the end of the history: every item after them
-- is a user message, and the last covered one, if there is one, is not.
pub coverable-At :
    (input : List Item)
    → (coverable input ≤ length input - 1)
      × ((coverable input ≡ 0) ⊎ At is_user_message input (coverable input) false)
      × ((i : ℕ) → coverable input < i → i < length input → At is_user_message input i true)
unfolding coverable
coverable-At input =
    let (le, start, users) = coverable_loop-At input (length input - 1) in
    (le, start, λ i a b. users i a (omega arith))

-- How many of the items at positions 1 to `i` are tool calls.
abbrev pub calls_to : List Item → ℕ → ℕ
calls_to input zero = 0
calls_to input (suc i) =
    calls_to input i + (if holds_of is_call (get_elem? input (suc i)) then 1 else 0)

-- ===== src/Cmdparse/Operands/Positional.antt =====
-- internal/cmdparse/operands.go: which arguments are operands.
use uagent_harness.Prelude.{
  ◌≡◌, refl, Bool, true, false, inl, inr, List, [], ◌∷◌, Text, text_eq, contains, All, Bool-cases,
  if◌then◌else◌,
}
use uagent_harness.Cmdparse.Operands.{
  two_dashes, is_assignment, is_flag, skip_flag_values, positional_operands, non_flags,
}

All-if :
    (P : Text → Type 0) (b : Bool) (x y : List Text)
    → (b ≡ true → All P x)
    → (b ≡ false → All P y)
    → All P (if b then x else y)
All-if P true x y h k = h refl
All-if P false x y h k = k refl

-- Before a `--`, the operands hold no flag.
pub positional_operands-unflagged :
    (flags args : List Text)
    → All (λ a. text_eq a two_dashes ≡ false) args
    → All (λ a. is_flag a ≡ false) (positional_operands flags args)
unfolding positional_operands
positional_operands-unflagged flags [] h = tt
positional_operands-unflagged flags (a ∷ []) h =
    All-if _ (text_eq a two_dashes) _ _ (λ _. tt)
      (λ _.
        All-if _ (is_assignment a) _ _ (λ _. tt)
          (λ _.
            All-if _ (contains flags a) _ _ (λ _. tt)
              (λ _. All-if _ (is_flag a) _ _ (λ _. tt) (λ e. (e, tt)))))
positional_operands-unflagged flags (a ∷ b ∷ args) (h, hs) =
    let next = positional_operands-unflagged flags (b ∷ args) hs in
    rw h (
      All-if _ (is_assignment a) _ _ (λ _. next)
        (λ _.
          All-if _ (contains flags a) _ _ (λ _. positional_operands-unflagged flags args hs.1)
            (λ _. All-if _ (is_flag a) _ _ (λ _. next) (λ e. (e, next)))))

-- Before a `--`, the operands are the arguments that are left without the values of flags, less the
-- flags.
pub non_flags-skip_flag_values :
    (flags args : List Text)
    → All (λ a. text_eq a two_dashes ≡ false) args
    → non_flags (skip_flag_values flags args) ≡ positional_operands flags args
unfolding positional_operands skip_flag_values non_flags
non_flags-skip_flag_values flags [] h = refl
non_flags-skip_flag_values flags (a ∷ []) (h, hs) = elim (Bool-cases (is_assignment a)) [
  | inl e ↦ rw (h, e)
  | inr e ↦ elim (Bool-cases (contains flags a)) [ inl k ↦ rw (h, e, k) | inr k ↦ rw (h, e, k) ]
]
non_flags-skip_flag_values flags (a ∷ b ∷ args) (h, hs) = elim (Bool-cases (is_assignment a)) [
  | inl e ↦ rw (h, e, non_flags-skip_flag_values flags (b ∷ args) hs)
  | inr e ↦ elim (Bool-cases (contains flags a)) [
    | inl k ↦ rw (h, e, k, non_flags-skip_flag_values flags args hs.1)
    | inr k ↦ rw (h, e, k, non_flags-skip_flag_values flags (b ∷ args) hs)
  ]
]

-- ===== src/Approval/Mode/Cycle.antt =====
-- internal/approval/mode.go: where the cycle of modes leads, and which modes have no sandbox.
use native.Mathlib.Nat.{mod_self, mod-eq_of_lt}
use uagent_harness.Prelude.{
  ℕ, suc, ◌+◌, ◌%◌, ◌<◌, ◌≡◌, refl, ◌∙◌, ap, Bool, true, false, inl, inr, Option, none, some, List,
  [], ◌∷◌, arith, ◌↔◌, ◌≢◌, text_eq, text_eq_iff, length, Exists, Bool-cases, All, get_elem?,
  get_elem-some, ◌==◌,
}
use uagent_harness.Approval.Mode.{
  Mode, in_workspace, full_access, workspace, yolo, or_default, one_more, modes_offered, after,
  index_of, next, sandbox_of, asks_no_one,
}

-- `n` comes after `m` in the circle of the modes, or is the first one where `m` is none of them.
pub data Follows (modes : List Mode) (m n : Mode) : Type 0 where
  following :
      (i : ℕ) → get_elem? modes i ≡ some m → get_elem? modes (suc i) ≡ some n → Follows modes m n
  round :
      (i : ℕ)
      → suc i ≡ length modes
      → get_elem? modes i ≡ some m
      → get_elem? modes 0 ≡ some n
      → Follows modes m n
  unknown : All (λ k. k ≢ m) modes → get_elem? modes 0 ≡ some n → Follows modes m n

-- What an index stands for.
abbrev IsIndex : List Mode → Mode → Option ℕ → Type 0
IsIndex modes m none = All (λ k. k ≢ m) modes
IsIndex modes m (some i) = (i < length modes) × (get_elem? modes i ≡ some m)

one_more-IsIndex :
    (k : Mode) (modes : List Mode) (m : Mode) (o : Option ℕ)
    → k ≢ m
    → IsIndex modes m o
    → IsIndex (k ∷ modes) m (one_more o)
one_more-IsIndex k modes m none n h = (n, h)
one_more-IsIndex k modes m (some i) n (l, e) = (omega arith, e)

index_of-IsIndex : (modes : List Mode) (m : Mode) → IsIndex modes m (index_of modes m)
unfolding index_of
index_of-IsIndex [] m = tt
index_of-IsIndex (k ∷ modes) m = elim (Bool-cases (text_eq k m)) [
  | inl e ↦ rw e (omega arith, ap (λ x. some x) ((text_eq_iff k m).0 e))
  | inr e ↦ rw e (
      one_more-IsIndex k modes m (index_of modes m) (λ d. cc (e, (text_eq_iff k m).1 d))
        (index_of-IsIndex modes m))
]

after-Follows :
    (modes : List Mode) (m : Mode) (o : Option ℕ)
    → 0 < length modes
    → IsIndex modes m o
    → (n : Mode) × (after modes o ≡ some n) × Follows modes m n
after-Follows modes m none pos h = let (n, e) = get_elem-some modes 0 pos in (n, e, unknown h e)
after-Follows modes m (some i) pos (l, h) = elim (Bool-cases (suc i == length modes)) [
  | inl e ↦
      let (n, k) = get_elem-some modes 0 pos in
      let last : i + 1 ≡ length modes = ground arith in
      let z : (i + 1) % length modes ≡ 0 =
        ap (λ x. x % length modes) last ∙ mod_self (length modes) in
      (n, ap (get_elem? modes) z ∙ k, round i (omega arith) h k)
  | inr e ↦
      let (n, k) = get_elem-some modes (suc i) (ground arith) in
      let less : i + 1 < length modes = ground arith in
      let z : (i + 1) % length modes ≡ suc i = mod-eq_of_lt less ∙ omega arith in
      (n, ap (get_elem? modes) z ∙ k, following i h k)
]

modes_offered-length : (offered : Bool) → 0 < length (modes_offered offered)
modes_offered-length true = omega arith
modes_offered-length false = omega arith

-- Whatever the mode, there is a next one: the one after it in the circle of the modes that are
-- offered, where no mode is the default one, and the first of them after a mode that is not offered.
pub next-Follows :
    (offered : Bool) (m : Mode)
    → (n : Mode) × (next offered m ≡ some n) × Follows (modes_offered offered) (or_default m) n
unfolding next
next-Follows offered m =
    after-Follows (modes_offered offered) (or_default m) _ (modes_offered-length offered)
      (index_of-IsIndex (modes_offered offered) (or_default m))

abbrev OneOf : List Mode → Mode → Type 0
OneOf modes m = Exists (λ k. k ≡ m) modes

sandbox_of-workspace : sandbox_of workspace ≡ in_workspace
unfolding sandbox_of or_default text_eq
sandbox_of-workspace = refl

sandbox_of-default : sandbox_of [] ≡ in_workspace
unfolding sandbox_of or_default text_eq
sandbox_of-default = refl

asks_no_one-full_access : (m : Mode) → asks_no_one m ≡ true → sandbox_of m ≡ full_access
unfolding sandbox_of asks_no_one text_eq or_default
asks_no_one-full_access m h = let e : m ≡ yolo = (text_eq_iff m yolo).0 h in ap sandbox_of e

-- The mode without a sandbox is the one that asks no one.
pub sandbox_of_iff : (m : Mode) → (sandbox_of m ≡ full_access) ↔ (asks_no_one m ≡ true)
unfolding sandbox_of asks_no_one or_default
sandbox_of_iff [] = (λ h. cc (h, sandbox_of-default), asks_no_one-full_access [])
sandbox_of_iff (c ∷ m) = (λ h. ground arith, asks_no_one-full_access (c ∷ m))

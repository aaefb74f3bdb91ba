-- ===== src/Rules/Spec.antt =====
-- internal/rules/rules.go: what it means for a pattern to cover words, and that `matches` and
-- `may_match` decide it.
use uagent_harness.Prelude.{
  ℕ, ◌+◌, ◌≤◌, ◌<◌, ◌≡◌, ◌↔◌, ◌⊎◌, inl, inr, refl, true, List, [], ◌∷◌, ◌++◌, arith, Text, length,
  contains, contains_iff, All, Exists, here, Bool-cases, &&_iff, leb,
}
use uagent_harness.Rules.{Rule, is_abs, base, accepts, accepts_all, agrees, matches, may_match}

-- A word is one of the alternatives; the first word may also be an absolute path to one.
abbrev pub Accepts : ℕ → List Text → Text → Type 0
Accepts i alts w =
    Exists (λ a. a ≡ w) alts ⊎ ((i ≡ 0) × (is_abs w ≡ true) × Exists (λ a. a ≡ base w) alts)

accepts-Accepts : (i : ℕ) (alts : List Text) (w : Text) → accepts i alts w ≡ true → Accepts i alts w
unfolding accepts
accepts-Accepts i alts w h = elim (Bool-cases (contains alts w)) [
  | inl e ↦ inl ((contains_iff alts w).0 e)
  | inr e ↦ inr (ground arith, ground arith, (contains_iff alts (base w)).0 (ground arith))
]

Accepts-accepts : (i : ℕ) (alts : List Text) (w : Text) → Accepts i alts w → accepts i alts w ≡ true
unfolding accepts
Accepts-accepts i alts w (inl e) = ground (arith, (contains_iff alts w).1 e)
Accepts-accepts i alts w (inr (z, a, e)) = ground (arith, (contains_iff alts (base w)).1 e)

-- The pattern, from position `i` on, covers a prefix of the words.
pub data Covers : ℕ → List (List Text) → List Text → Type 0 where
  done : {i : ℕ} {words : List Text} → Covers i [] words
  next :
      {i : ℕ} {alts : List Text} {pattern : List (List Text)} {w : Text} {words : List Text}
      → Accepts i alts w
      → Covers (i + 1) pattern words
      → Covers i (alts ∷ pattern) (w ∷ words)

accepts_all-Covers :
    (i : ℕ) (pattern : List (List Text)) (words : List Text)
    → accepts_all i pattern words ≡ true
    → Covers i pattern words
unfolding accepts_all
accepts_all-Covers i [] words h = done
accepts_all-Covers i (alts ∷ pattern) [] h = cc
accepts_all-Covers i (alts ∷ pattern) (w ∷ words) h =
    let (a, b) = (&&_iff (accepts i alts w) _).0 h in
    next (accepts-Accepts i alts w a) (accepts_all-Covers (i + 1) pattern words b)

pub Covers-accepts_all :
    {i : ℕ} {pattern : List (List Text)} {words : List Text}
    → Covers i pattern words
    → accepts_all i pattern words ≡ true
unfolding accepts_all
Covers-accepts_all done = refl
Covers-accepts_all (next {i = i} {alts = alts} {w = w} a c) =
    (&&_iff _ _).1 (Accepts-accepts i alts w a, Covers-accepts_all c)

Covers-length :
    {i : ℕ} {pattern : List (List Text)} {words : List Text}
    → Covers i pattern words
    → length pattern ≤ length words
Covers-length done = omega arith
Covers-length (next a c) = omega (arith, Covers-length c)

-- A rule matches exactly the words whose prefix its pattern covers, and an empty pattern matches
-- nothing.
pub matches_iff :
    (r : Rule) (words : List Text)
    → (matches r words ≡ true) ↔ ((0 < length r.pattern) × Covers 0 r.pattern words)
unfolding matches
matches_iff r words = (
  λ h. (ground arith, accepts_all-Covers 0 r.pattern words (ground arith)),
  λ h. ground (arith, Covers-length h.1, Covers-accepts_all h.1),
)

pub Covers-append :
    {i : ℕ} {pattern : List (List Text)} {words : List Text} (more : List Text)
    → Covers i pattern words
    → Covers i pattern (words ++ more)
Covers-append more done = done
Covers-append more (next a c) = next a (Covers-append more c)

Covers-prefix :
    (i : ℕ) (pattern : List (List Text)) (words more : List Text)
    → length pattern ≤ length words
    → Covers i pattern (words ++ more)
    → Covers i pattern words
Covers-prefix i [] words more l c = done
Covers-prefix i (alts ∷ pattern) [] more l c = absurd (omega arith)
Covers-prefix i (alts ∷ pattern) (w ∷ words) more l (next a c) =
    next a (Covers-prefix (i + 1) pattern words more (omega arith) c)

-- One word for each position, taken from the alternatives.
first_words :
    (i : ℕ) (pattern : List (List Text))
    → All (λ alts. 0 < length alts) pattern
    → (words : List Text) × Covers i pattern words
first_words i [] h = ([], done)
first_words i ([] ∷ pattern) h = absurd (omega arith)
first_words i ((a ∷ alts) ∷ pattern) h =
    let (words, c) = first_words (i + 1) pattern h.1 in (a ∷ words, next (inl (here refl)) c)

agrees-Covers :
    (i : ℕ) (pattern : List (List Text)) (words : List Text)
    → All (λ alts. 0 < length alts) pattern
    → length words ≤ length pattern
    → agrees i pattern words ≡ true
    → (more : List Text) × Covers i pattern (words ++ more)
unfolding agrees
agrees-Covers i pattern [] full l h = first_words i pattern full
agrees-Covers i [] (w ∷ words) full l h = absurd (omega arith)
agrees-Covers i (alts ∷ pattern) (w ∷ words) full l h =
    let (a, b) = (&&_iff (accepts i alts w) _).0 h in
    let (more, c) = agrees-Covers (i + 1) pattern words full.1 (omega arith) b in
    (more, next (accepts-Accepts i alts w a) c)

Covers-agrees :
    (i : ℕ) (pattern : List (List Text)) (words more : List Text)
    → length words ≤ length pattern
    → Covers i pattern (words ++ more)
    → agrees i pattern words ≡ true
unfolding agrees
Covers-agrees i pattern [] more l c = refl
Covers-agrees i [] (w ∷ words) more l c = absurd (omega arith)
Covers-agrees i (alts ∷ pattern) (w ∷ words) more l (next a c) =
    (&&_iff _ _).1
      (Accepts-accepts i alts w a, Covers-agrees (i + 1) pattern words more (omega arith) c)

-- When every position has an alternative, a rule may match exactly the words that some further
-- words complete to a match.
pub may_match_iff :
    (r : Rule) (words : List Text)
    → All (λ alts. 0 < length alts) r.pattern
    → (may_match r words ≡ true) ↔ ((more : List Text) × (matches r (words ++ more) ≡ true))
unfolding may_match
may_match_iff r words full = elim (Bool-cases (leb (length r.pattern) (length words))) [
  | inl e ↦ rw e (
    λ h.
        let (p, c) = (matches_iff r words).0 h in
        ([], (matches_iff r (words ++ [])).1 (p, Covers-append [] c)),
    λ (more, h).
        let (p, c) = (matches_iff r (words ++ more)).0 h in
        (matches_iff r words).1 (p, Covers-prefix 0 r.pattern words more (ground arith) c),
  )
  | inr e ↦ rw e (
    λ h.
        let (more, c) = agrees-Covers 0 r.pattern words full (ground arith) h in
        (more, (matches_iff r (words ++ more)).1 (ground arith, c)),
    λ (more, h).
        let (p, c) = (matches_iff r (words ++ more)).0 h in
        Covers-agrees 0 r.pattern words more (ground arith) c,
  )
]

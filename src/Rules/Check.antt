-- ===== src/Rules/Check.antt =====
-- internal/rules/rules.go: when `check` forbids a command, and when it allows one.
use uagent_harness.Prelude.{
  ◌≤◌, ◌<◌, ◌≡◌, ◌↔◌, ◌∙◌, sym, ap, subst, Bool, true, false, List, [], ◌∷◌, arith, Text, length,
  All, Exists, here, there, Bool-cases, ltb, inl, inr, ◌⊎◌, All-Exists,
}
use uagent_harness.Rules.{
  Decision, allow, forbidden, Rule, rank, no_rule, matches, Policy, Found, check_loop, verdict,
  check,
}
use uagent_harness.Rules.Strictest.{Matching}
use uagent_harness.Rules.Verdict.{Has, AtMost, Checked, checked}

-- The answer of `check`: a rule was found, and it has the decision.
abbrev pub Says : Decision → Found → Type 0
Says d f = (f.1 ≡ true) × (f.0.decision ≡ d)

-- Every rule has one of the three decisions.
abbrev pub IsProper : Policy → Type 0
IsProper p = All (λ (r : Rule). 0 < rank r.decision) p

rank-injective : (a b : Decision) → rank a ≡ rank b → a ≡ b
rank-injective a b h = ground arith

rank-le : (d : Decision) → rank d ≤ 3
rank-le d = ground arith

-- A decision that some command has bounds the strictest from below.
Has-le :
    (p : Policy) (commands : List (List Text)) (d e : Decision)
    → Exists (Has p d) commands
    → All (λ words. AtMost p e words) commands
    → rank d ≤ rank e
Has-le p commands d e has most =
    All-Exists {B = rank d ≤ rank e} (AtMost p e) (Has p d) commands
      (λ words a h. All-Exists {B = rank d ≤ rank e} _ _ p (λ r b m. rw (← m.1) (b m.0)) a h) most
      has

verdict-forbidden : (f : Found) → Says forbidden (verdict f) ↔ (f.0.decision ≡ forbidden)
unfolding verdict
verdict-forbidden (s, allowed) = (λ h. ground arith, λ h. ground arith)

verdict-allow : (f : Found) → Says allow (verdict f) ↔ ((f.0.decision ≡ allow) × (f.1 ≡ true))
unfolding verdict
verdict-allow (s, allowed) = (λ h. ground arith, λ h. ground arith)

-- The strictest rule of the loop came from a command, unless it is the zero rule.
from-Has :
    {p : Policy} {start : Bool} {commands : List (List Text)} {f : Found} (d : Decision)
    → Checked p start commands f
    → f.0.decision ≡ d
    → 0 < rank d
    → Exists (Has p d) commands
from-Has {p} {commands = commands} {f = f} d c e pos = source c.from
  where
    source :
        (f.0 ≡ no_rule) ⊎ Exists (λ words. Has p f.0.decision words) commands
        → Exists (Has p d) commands
    source (inl z) = absurd (omega (arith, sym (ap rank e) ∙ ap (λ (r : Rule). rank r.decision) z))
    source (inr h) = subst (λ x. Exists (Has p x) commands) e h

-- `check` answers forbidden exactly when some command has a forbidden rule that matches it.
pub check-forbidden_iff :
    (p : Policy) (commands : List (List Text))
    → Says forbidden (check p commands) ↔ Exists (Has p forbidden) commands
unfolding check
check-forbidden_iff p commands =
    let f = check_loop p commands (no_rule, ltb 0 (length commands)) in
    let c : Checked p (ltb 0 (length commands)) commands f = checked p commands in
    (
      λ h. from-Has forbidden c ((verdict-forbidden f).0 h) (omega arith),
      λ h. (verdict-forbidden f).1 (
          rank-injective f.0.decision forbidden (
            omega
              (arith, rank-le f.0.decision, Has-le p commands forbidden f.0.decision h c.upper))),
    )

-- A command of which every matching rule is at most `allow`, and some rule matches, has `allow`.
Has-allow :
    (p : Policy) (words : List Text)
    → IsProper p
    → AtMost p allow words
    → Exists (λ r. Matching words r) p
    → Has p allow words
Has-allow [] words proper most e = elim e [ ]
Has-allow (r ∷ p) words (pos, proper) (a, most) (here m) =
    here (m, rank-injective r.decision allow (omega (arith, a m)))
Has-allow (r ∷ p) words (pos, proper) (a, most) (there e) = there (Has-allow p words proper most e)

abbrev pub Allowed : Policy → List Text → Type 0
Allowed p words = Has p allow words × AtMost p allow words

All-Allowed :
    (p : Policy) (commands : List (List Text))
    → IsProper p
    → All (AtMost p allow) commands
    → All (λ words. Exists (λ r. Matching words r) p) commands
    → All (Allowed p) commands
All-Allowed p [] proper most found = tt
All-Allowed p (words ∷ commands) proper (a, most) (e, found) =
    ((Has-allow p words proper a e, a), All-Allowed p commands proper most found)

All-most :
    (p : Policy) (commands : List (List Text))
    → All (Allowed p) commands
    → All (AtMost p allow) commands
All-most p [] h = tt
All-most p (words ∷ commands) ((_, a), h) = (a, All-most p commands h)

Allowed-le :
    {p : Policy} {start : Bool} {commands : List (List Text)} {f : Found}
    → Checked p start commands f
    → All (Allowed p) commands
    → rank f.0.decision ≤ 1
Allowed-le {p} {commands = commands} {f = f} c h = bound c.from
  where
    bound :
        (f.0 ≡ no_rule) ⊎ Exists (λ words. Has p f.0.decision words) commands
        → rank f.0.decision ≤ 1
    bound (inl z) = omega (arith, ap (λ (r : Rule). rank r.decision) z)
    bound (inr e) = Has-le p commands f.0.decision allow e (All-most p commands h)

Allowed-ge :
    (p : Policy) (commands : List (List Text)) (d : Decision)
    → 0 < length commands
    → All (Allowed p) commands
    → All (λ words. AtMost p d words) commands
    → 1 ≤ rank d
Allowed-ge p [] d pos h most = absurd (omega arith)
Allowed-ge p (words ∷ commands) d pos ((a, _), h) most =
    Has-le p (words ∷ commands) allow d (here a) most

none_match-Has :
    (p : Policy) (d : Decision) (words : List Text)
    → All (λ r. matches r words ≡ false) p
    → Has p d words
    → ⊥
none_match-Has p d words none_match has =
    All-Exists {B = ⊥} (λ r. matches r words ≡ false) _ p (λ r e m. cc m.0) none_match has

Allowed-mark :
    {p : Policy} {commands : List (List Text)} {f : Found}
    → Checked p (ltb 0 (length commands)) commands f
    → 0 < length commands
    → All (Allowed p) commands
    → f.1 ≡ true
Allowed-mark {p} {commands} {f} c pos h = elim (Bool-cases f.1) [
  | inl e ↦ e
  | inr e ↦ absurd (refute (c.lost e))
]
  where
    refute :
        (ltb 0 (length commands) ≡ false)
          ⊎ Exists (λ words. All (λ r. matches r words ≡ false) p) commands
        → ⊥
    refute (inl z) = ground arith
    refute (inr x) =
        All-Exists {B = ⊥} (Allowed p) (λ words. All (λ r. matches r words ≡ false) p) commands
          (λ words a none_match. none_match-Has p allow words none_match a.0) h x

-- `check` answers allow exactly when there is a command, and each command has an allow rule that
-- matches it and no stricter one.
pub check-allow_iff :
    (p : Policy) (commands : List (List Text))
    → IsProper p
    → Says allow (check p commands) ↔ ((0 < length commands) × All (Allowed p) commands)
unfolding check
check-allow_iff p commands proper =
    let f = check_loop p commands (no_rule, ltb 0 (length commands)) in
    let c : Checked p (ltb 0 (length commands)) commands f = checked p commands in
    (
      λ h.
          let (e, t) = (verdict-allow f).0 h in
          let (start, found) = c.all_found t in
          (
            ground arith,
            All-Allowed p commands proper (subst (λ d. All (AtMost p d) commands) e c.upper) found,
          ),
      λ (pos, h). (verdict-allow f).1 (
        rank-injective f.0.decision allow
            (omega (arith, Allowed-le c h, Allowed-ge p commands f.0.decision pos h c.upper)),
        Allowed-mark c pos h,
      ),
    )

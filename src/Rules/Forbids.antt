-- ===== src/Rules/Forbids.antt =====
-- internal/rules/rules.go: what `forbids` finds in a command that does not split into plain words.
use uagent_harness.Prelude.{
  ◌≢◌, ◌++◌, ◌≡◌, refl, ◌∙◌, sym, ap, subst, Bool, true, false, List, [], ◌∷◌, arith, ◌==◌, Text,
  All, Exists, here, there, Bool-cases, inl, inr, ◌⊎◌, some_inj, Option, some, none,
}
use uagent_harness.Rules.{
  forbidden, Rule, rank, matches, may_match, Policy, Scanned, forbidden_rules, first_rule, or_else,
  first_match, first_may_match, forbids_in, forbids, by_passes,
}

abbrev pub In : Rule → List Rule → Type 0
In r rules = Exists (λ q. q ≡ r) rules

first_rule-some :
    (test : Rule → Bool) (rules : List Rule) (r : Rule)
    → first_rule test rules ≡ some r
    → In r rules × (test r ≡ true)
unfolding first_rule
first_rule-some test [] r h = cc
first_rule-some test (q ∷ rules) r h = elim (Bool-cases (test q)) [
  | inl e ↦ let d : q ≡ r = some_inj q r (rw e at h) in (here d, subst (λ x. test x ≡ true) d e)
  | inr e ↦ let (m, t) = first_rule-some test rules r (rw e at h) in (there m, t)
]

first_rule-none :
    (test : Rule → Bool) (rules : List Rule)
    → first_rule test rules ≡ none
    → All (λ r. test r ≡ false) rules
unfolding first_rule
first_rule-none test [] h = tt
first_rule-none test (q ∷ rules) h = elim (Bool-cases (test q)) [
  | inl e ↦ cc (rw e at h)
  | inr e ↦ (e, first_rule-none test rules (rw e at h))
]

or_else-some : (a b : Option Rule) (r : Rule) → or_else a b ≡ some r → (a ≡ some r) ⊎ (b ≡ some r)
or_else-some (some q) b r h = inl h
or_else-some none b r h = inr h

or_else-none : (a b : Option Rule) → or_else a b ≡ none → (a ≡ none) × (b ≡ none)
or_else-none (some q) b h = cc
or_else-none none b h = (refl, h)

first_match-some :
    (rules : List Rule) (commands : List Scanned) (r : Rule)
    → first_match rules commands ≡ some r
    → In r rules × Exists (λ c. matches r c.words ≡ true) commands
unfolding first_match
first_match-some rules [] r h = cc
first_match-some rules (c ∷ commands) r h =
    elim (or_else-some (first_rule (λ q. matches q c.words) rules) (first_match rules commands) r
      h) [
        | inl e ↦ let (m, t) = first_rule-some (λ q. matches q c.words) rules r e in (m, here t)
        | inr e ↦ let (m, t) = first_match-some rules commands r e in (m, there t)
      ]

first_match-none :
    (rules : List Rule) (commands : List Scanned)
    → first_match rules commands ≡ none
    → All (λ c. All (λ r. matches r c.words ≡ false) rules) commands
unfolding first_match
first_match-none rules [] h = tt
first_match-none rules (c ∷ commands) h =
    let (a, b) = or_else-none (first_rule (λ q. matches q c.words) rules) _ h in
    (first_rule-none (λ q. matches q c.words) rules a, first_match-none rules commands b)

-- A command that stopped early and may match the rule.
abbrev pub MayMatch : Rule → Scanned → Type 0
MayMatch r c = (c.partial ≡ true) × (may_match r c.words ≡ true)

first_may_match-some :
    (rules : List Rule) (commands : List Scanned) (r : Rule)
    → first_may_match rules commands ≡ some r
    → In r rules × Exists (MayMatch r) commands
unfolding first_may_match
first_may_match-some rules [] r h = cc
first_may_match-some rules (c ∷ commands) r h =
    elim (or_else-some _ (first_may_match rules commands) r h) [
      | inl e ↦ elim (Bool-cases c.partial) [
        | inl k ↦
            let (m, t) = first_rule-some (λ q. may_match q c.words) rules r (rw k at e) in
            (m, here (k, t))
        | inr k ↦ cc (rw k at e)
      ]
      | inr e ↦ let (m, t) = first_may_match-some rules commands r e in (m, there t)
    ]

first_may_match-none :
    (rules : List Rule) (commands : List Scanned)
    → first_may_match rules commands ≡ none
    → All (λ c. c.partial ≡ true → All (λ r. may_match r c.words ≡ false) rules) commands
unfolding first_may_match
first_may_match-none rules [] h = tt
first_may_match-none rules (c ∷ commands) h =
    let (a, b) = or_else-none _ (first_may_match rules commands) h in
    (
      λ k. first_rule-none (λ q. may_match q c.words) rules (rw k at a),
      first_may_match-none rules commands b,
    )

In-forbidden_rules :
    (p : Policy) (r : Rule) → In r (forbidden_rules p) → In r p × (rank r.decision ≡ 3)
unfolding forbidden_rules
In-forbidden_rules [] r e = elim e [ ]
In-forbidden_rules (q ∷ p) r e = elim (Bool-cases (rank q.decision == 3)) [
  | inl k ↦ first k (In-forbidden_rules p r) (rw k at e)
  | inr k ↦ let (m, d) = In-forbidden_rules p r (rw k at e) in (there m, d)
]
  where
    first :
        (rank q.decision == 3) ≡ true
        → (In r (forbidden_rules p) → In r p × (rank r.decision ≡ 3))
        → In r (q ∷ forbidden_rules p)
        → In r (q ∷ p) × (rank r.decision ≡ 3)
    first k ih (here d) = (here d, ap (λ (x : Rule). rank x.decision) (sym d) ∙ ground arith)
    first k ih (there m) = let (n, d) = ih m in (there n, d)

-- A property of all forbidden rules, as one of all rules.
All-forbidden_rules :
    (P : Rule → Type 0) (p : Policy)
    → All P (forbidden_rules p)
    → All (λ r. r.decision ≡ forbidden → P r) p
unfolding forbidden_rules
All-forbidden_rules P [] h = tt
All-forbidden_rules P (q ∷ p) h = elim (Bool-cases (rank q.decision == 3)) [
  | inl k ↦
      let (a, b) : P q × All P (forbidden_rules p) = rw k at h in
      (λ _. a, All-forbidden_rules P p b)
  | inr k ↦ (λ d. absurd (ground (arith, ap rank d)), All-forbidden_rules P p (rw k at h))
]

-- No forbidden rule stands before the rule in the policy.
abbrev pub IsFirstForbidden : Rule → Policy → Type 0
IsFirstForbidden r p =
    (before : List Rule) × (rest : List Rule) × (p ≡ before ++ r ∷ rest)
    × All (λ q. q.decision ≢ forbidden) before

-- What a rule found by `forbids` rests on: a command that it matches; where it only may match, a
-- command that stopped early, when no forbidden rule matches a command; or, for a text that does not
-- parse, that it is the first forbidden rule.
abbrev pub Grounds : Policy → Rule → Bool → Option (List Scanned) → Type 0
Grounds p r false none = ⊥
Grounds p r true none = IsFirstForbidden r p
Grounds p r false (some commands) = Exists (λ c. matches r c.words ≡ true) commands
Grounds p r true (some commands) =
    Exists (MayMatch r) commands
    × All (λ c. All (λ q. q.decision ≡ forbidden → matches q c.words ≡ false) p) commands

-- No forbidden rule matches a command, or may match one that stopped early; a text that does not
-- parse is clear only if no rule forbids.
abbrev pub IsClear : Policy → Option (List Scanned) → Type 0
IsClear p none = All (λ r. r.decision ≡ forbidden → ⊥) p
IsClear p (some commands) =
    All (λ c. All (λ r. r.decision ≡ forbidden → matches r c.words ≡ false) p) commands
    × All
        (λ c. c.partial ≡ true → All (λ r. r.decision ≡ forbidden → may_match r c.words ≡ false) p)
        commands

All-match-forbidden :
    (p : Policy) (commands : List Scanned)
    → All (λ c. All (λ r. matches r c.words ≡ false) (forbidden_rules p)) commands
    → All (λ c. All (λ r. r.decision ≡ forbidden → matches r c.words ≡ false) p) commands
All-match-forbidden p [] h = tt
All-match-forbidden p (c ∷ commands) (a, h) =
    (All-forbidden_rules (λ r. matches r c.words ≡ false) p a, All-match-forbidden p commands h)

forbidden_rules-first :
    (p : Policy) (r : Rule) (rules : List Rule)
    → forbidden_rules p ≡ r ∷ rules
    → IsFirstForbidden r p
unfolding forbidden_rules
forbidden_rules-first [] r rules h = cc
forbidden_rules-first (q ∷ p) r rules h = elim (Bool-cases (rank q.decision == 3)) [
  | inl k ↦ let e : q ≡ r = cc (rw k at h) in ([], p, ap (λ x. x ∷ p) e, tt)
  | inr k ↦
      let (before, rest, e, a) = forbidden_rules-first p r rules (rw k at h) in
      (q ∷ before, rest, ap (λ l. q ∷ l) e, (λ d. absurd (ground (arith, ap rank d)), a))
]

by_passes-Grounds :
    (p : Policy) (commands : List Scanned) (r : Rule) (maybe : Bool) (a b : Option Rule)
    → first_match (forbidden_rules p) commands ≡ a
    → first_may_match (forbidden_rules p) commands ≡ b
    → by_passes a b ≡ some (r, maybe)
    → In r (forbidden_rules p) × Grounds p r maybe (some commands)
by_passes-Grounds p commands r false (some q) b ea eb h =
    let d : q ≡ r = cc in first_match-some (forbidden_rules p) commands r (ea ∙ ap (λ x. some x) d)
by_passes-Grounds p commands r true (some q) b ea eb h = cc
by_passes-Grounds p commands r false none (some q) ea eb h = cc
by_passes-Grounds p commands r true none (some q) ea eb h =
    let d : q ≡ r = cc in
    let (m, g) = first_may_match-some (forbidden_rules p) commands r (eb ∙ ap (λ x. some x) d) in
    (m, (g, All-match-forbidden p commands (first_match-none (forbidden_rules p) commands ea)))
by_passes-Grounds p commands r maybe none none ea eb h = cc

forbids_in-some :
    (p : Policy) (rules : List Rule) (scanned : Option (List Scanned)) (r : Rule) (maybe : Bool)
    → forbidden_rules p ≡ rules
    → forbids_in rules scanned ≡ some (r, maybe)
    → In r (forbidden_rules p) × Grounds p r maybe scanned
unfolding forbids_in
forbids_in-some p [] scanned r maybe e h = cc
forbids_in-some p (q ∷ rules) none r false e h = cc
forbids_in-some p (q ∷ rules) none r true e h =
    let d : q ≡ r = cc in
    let f = e ∙ ap (λ x. x ∷ rules) d in
    (subst (In r) (sym f) (here refl), forbidden_rules-first p r rules f)
forbids_in-some p (q ∷ rules) (some commands) r maybe e h =
    by_passes-Grounds p commands r maybe _ _ (ap (λ l. first_match l commands) e)
      (ap (λ l. first_may_match l commands) e) h

-- A rule that `forbids` finds is a forbidden rule of the policy. Where it is reported to match, it
-- matches a command of the scan. Where it is reported that it may match, either it may match a
-- command that stopped early and no forbidden rule matches any command, or the text does not parse
-- and it is the first forbidden rule.
pub forbids-some :
    (scan : Text → Option (List Scanned)) (p : Policy) (command : Text) (r : Rule) (maybe : Bool)
    → forbids scan p command ≡ some (r, maybe)
    → In r p × (r.decision ≡ forbidden) × Grounds p r maybe (scan command)
unfolding forbids
forbids-some scan p command r maybe h =
    let (m, g) = forbids_in-some p (forbidden_rules p) (scan command) r maybe refl h in
    let (n, k) = In-forbidden_rules p r m in (n, ground arith, g)

All-partial-forbidden :
    (p : Policy) (commands : List Scanned)
    → All
        (λ c. c.partial ≡ true → All (λ r. may_match r c.words ≡ false) (forbidden_rules p))
        commands
    → All
        (λ c. c.partial ≡ true → All (λ r. r.decision ≡ forbidden → may_match r c.words ≡ false) p)
        commands
All-partial-forbidden p [] h = tt
All-partial-forbidden p (c ∷ commands) (a, h) = (
  λ k. All-forbidden_rules (λ r. may_match r c.words ≡ false) p (a k),
  All-partial-forbidden p commands h,
)

by_passes-none : (a b : Option Rule) → by_passes a b ≡ none → (a ≡ none) × (b ≡ none)
by_passes-none (some q) b h = cc
by_passes-none none (some q) h = cc
by_passes-none none none h = (refl, refl)

no_commands-IsClear :
    (p : Policy) (commands : List Scanned) → forbidden_rules p ≡ [] → IsClear p (some commands)
no_commands-IsClear p commands e = (
  All-match-forbidden p commands (each commands),
  All-partial-forbidden p commands (each' commands),
)
  where
    each :
        (l : List Scanned) → All (λ c. All (λ r. matches r c.words ≡ false) (forbidden_rules p)) l
    each [] = tt
    each (c ∷ l) = (rw e tt, each l)

    each' :
        (l : List Scanned)
        → All (λ c. c.partial ≡ true → All (λ r. may_match r c.words ≡ false) (forbidden_rules p)) l
    each' [] = tt
    each' (c ∷ l) = (λ k. rw e tt, each' l)

forbids_in-none :
    (p : Policy) (rules : List Rule) (scanned : Option (List Scanned))
    → forbidden_rules p ≡ rules
    → forbids_in rules scanned ≡ none
    → IsClear p scanned
unfolding forbids_in
forbids_in-none p [] none e h = All-forbidden_rules (λ _. ⊥) p (rw e tt)
forbids_in-none p [] (some commands) e h = no_commands-IsClear p commands e
forbids_in-none p (q ∷ rules) none e h = cc
forbids_in-none p (q ∷ rules) (some commands) e h =
    let (a, b) = by_passes-none _ _ h in
    (
      All-match-forbidden p commands (rw e (first_match-none (q ∷ rules) commands a)),
      All-partial-forbidden p commands (rw e (first_may_match-none (q ∷ rules) commands b)),
    )

-- When `forbids` finds nothing, no forbidden rule of the policy matches a command of the scan, or
-- may match one that stopped early; and a text that does not parse is let by only if the policy
-- has no forbidden rule.
pub forbids-none :
    (scan : Text → Option (List Scanned)) (p : Policy) (command : Text)
    → forbids scan p command ≡ none
    → IsClear p (scan command)
unfolding forbids
forbids-none scan p command h = forbids_in-none p (forbidden_rules p) (scan command) refl h

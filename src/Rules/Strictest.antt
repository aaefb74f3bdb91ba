-- ===== src/Rules/Strictest.antt =====
-- internal/rules/rules.go: `match_rule` finds the strictest rule that matches.
use uagent_harness.Prelude.{
  ℕ, ◌≤◌, ◌≡◌, refl, true, false, List, [], ◌∷◌, ◌++◌, arith, Text, All, All-append, Exists,
  Exists-last, Exists-append, append-nil, append_assoc, Bool-cases, ltb, inl, inr,
}
use uagent_harness.Rules.{
  Rule, rank, no_rule, matches, Policy, Found, better, match_loop, match_rule,
}

abbrev pub Matching : List Text → Rule → Type 0
Matching words r = matches r words ≡ true

-- The rules that the loop went over, and the one that it keeps.
pub record Strictest (words : List Text) (rules : List Rule) (best : Rule) : Type 0 where
  pub member : Exists (λ r. r ≡ best) rules
  pub matching : Matching words best
  pub bound : All (λ r. Matching words r → rank r.decision ≤ rank best.decision) rules

-- What the loop knows after the rules that it has seen.
abbrev pub Seen : List Text → List Rule → Found → Type 0
Seen words rules (best, true) = Strictest words rules best
Seen words rules (best, false) = (best ≡ no_rule) × All (λ r. matches r words ≡ false) rules

All-bound :
    (words : List Text) (rules : List Rule) (k m : ℕ)
    → k ≤ m
    → All (λ r. Matching words r → rank r.decision ≤ k) rules
    → All (λ r. Matching words r → rank r.decision ≤ m) rules
All-bound words [] k m l h = tt
All-bound words (r ∷ rules) k m l (a, h) = (λ e. omega (arith, a e), All-bound words rules k m l h)

bound_of_none :
    (words : List Text) (rules : List Rule) (k : ℕ)
    → All (λ r. matches r words ≡ false) rules
    → All (λ r. Matching words r → rank r.decision ≤ k) rules
bound_of_none words [] k h = tt
bound_of_none words (r ∷ rules) k (a, h) = (λ e. cc, bound_of_none words rules k h)

better-Seen :
    (words : List Text) (rules : List Rule) (r : Rule) (acc : Found)
    → Seen words rules acc
    → Seen words (rules ++ r ∷ []) (better words r acc)
unfolding better
better-Seen words rules r (best, false) (z, h) = elim (Bool-cases (matches r words)) [
  | inl e ↦ rw e (record {
    member = Exists-last rules r refl;
    matching = e;
    bound = All-append _ rules (r ∷ []) (bound_of_none words rules _ h) (λ _. omega arith, tt);
  })
  | inr e ↦ rw e (z, All-append _ rules (r ∷ []) h (e, tt))
]
better-Seen words rules r (best, true) s = elim (Bool-cases (matches r words)) [
  | inl e ↦ elim (Bool-cases (ltb (rank best.decision) (rank r.decision))) [
    | inl l ↦
        rw (e, l)
          (record {
            member = Exists-last rules r refl;
            matching = e;
            bound =
                All-append _ rules (r ∷ [])
                  (All-bound words rules (rank best.decision) _ (ground arith) s.bound)
                  (λ _. omega arith, tt);
          })
    | inr l ↦ rw (e, l) (keep (λ _. ground arith))
  ]
  | inr e ↦ rw e (keep (λ h. cc))
]
  where
    keep :
        (Matching words r → rank r.decision ≤ rank best.decision)
        → Strictest words (rules ++ r ∷ []) best
    keep b = record {
      member = Exists-append rules (r ∷ []) s.member;
      matching = s.matching;
      bound = All-append _ rules (r ∷ []) s.bound (b, tt);
    }

match_loop-Seen :
    (words : List Text) (rules more : List Rule) (acc : Found)
    → Seen words rules acc
    → Seen words (rules ++ more) (match_loop words more acc)
unfolding match_loop
match_loop-Seen words rules [] acc s = rw append-nil s
match_loop-Seen words rules (r ∷ more) acc s = rw (← append_assoc rules (r ∷ []) more) (
    match_loop-Seen words (rules ++ r ∷ []) more (better words r acc)
      (better-Seen words rules r acc s))

-- `match_rule` gives a rule of the policy that matches the words and is as strict as any that
-- does; when it finds none, no rule of the policy matches.
pub match_rule-Seen : (p : Policy) (words : List Text) → Seen words p (match_rule p words)
unfolding match_rule
match_rule-Seen p words = match_loop-Seen words [] p (no_rule, false) (refl, tt)

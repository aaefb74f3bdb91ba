-- ===== src/Rules/Verdict.antt =====
-- internal/rules/rules.go: what `check` decides about a command made of several simple commands.
use uagent_harness.Prelude.{
  ◌≤◌, ◌≡◌, refl, ap, Bool, true, false, List, [], ◌∷◌, ◌++◌, arith, Text, length, All, Exists,
  here, there, Bool-cases, ltb, inl, inr, ◌⊎◌, All-append, Exists-append, Exists-last, append-nil,
  append_assoc,
}
use uagent_harness.Rules.{
  Decision, Rule, rank, no_rule, matches, Policy, Found, match_rule, stricter, check_loop,
}
use uagent_harness.Rules.Strictest.{Matching, Seen, match_rule-Seen}

-- Some rule that matches the words has the decision.
abbrev pub Has : Policy → Decision → List Text → Type 0
Has p d words = Exists (λ r. Matching words r × (r.decision ≡ d)) p

-- No rule that matches the words is stricter than the decision.
abbrev pub AtMost : Policy → Decision → List Text → Type 0
AtMost p d words = All (λ r. Matching words r → rank r.decision ≤ rank d) p

-- What `match_rule` finds, as facts about the policy.
abbrev Level : Policy → List Text → Found → Type 0
Level p words (best, true) = Has p best.decision words × AtMost p best.decision words
Level p words (best, false) = (best ≡ no_rule) × All (λ r. matches r words ≡ false) p

Has-Strictest :
    (p : Policy) (words : List Text) (best : Rule)
    → Matching words best
    → Exists (λ r. r ≡ best) p
    → Has p best.decision words
Has-Strictest p words best m e = map-Exists p e
  where
    map-Exists : (l : List Rule) → Exists (λ r. r ≡ best) l → Has l best.decision words
    map-Exists [] e = elim e [ ]
    map-Exists (r ∷ l) (here e) = here (rw e m, ap (λ (x : Rule). x.decision) e)
    map-Exists (r ∷ l) (there e) = there (map-Exists l e)

Seen-Level : (p : Policy) (words : List Text) (f : Found) → Seen words p f → Level p words f
Seen-Level p words (best, true) s = (Has-Strictest p words best s.matching s.member, s.bound)
Seen-Level p words (best, false) s = s

match_rule-Level : (p : Policy) (words : List Text) → Level p words (match_rule p words)
match_rule-Level p words = Seen-Level p words (match_rule p words) (match_rule-Seen p words)

AtMost-le :
    (p : Policy) (words : List Text) (d e : Decision)
    → rank d ≤ rank e
    → AtMost p d words
    → AtMost p e words
AtMost-le [] words d e l h = tt
AtMost-le (r ∷ p) words d e l (a, h) = (λ m. omega (arith, a m), AtMost-le p words d e l h)

AtMost-unmatched :
    (p : Policy) (words : List Text) (d : Decision)
    → All (λ r. matches r words ≡ false) p
    → AtMost p d words
AtMost-unmatched [] words d h = tt
AtMost-unmatched (r ∷ p) words d (a, h) = (λ m. cc, AtMost-unmatched p words d h)

-- What the loop of `check` knows after the commands it has seen, from the mark it started with.
pub record Checked (p : Policy) (start : Bool) (commands : List (List Text)) (f : Found)
    : Type 0 where
  pub from : (f.0 ≡ no_rule) ⊎ Exists (λ words. Has p f.0.decision words) commands
  pub upper : All (λ words. AtMost p f.0.decision words) commands
  pub all_found :
      f.1 ≡ true → (start ≡ true) × All (λ words. Exists (λ r. Matching words r) p) commands
  pub lost :
      f.1 ≡ false
      → (start ≡ false) ⊎ Exists (λ words. All (λ r. matches r words ≡ false) p) commands

pub All-AtMost-le :
    (p : Policy) (commands : List (List Text)) (d e : Decision)
    → rank d ≤ rank e
    → All (λ words. AtMost p d words) commands
    → All (λ words. AtMost p e words) commands
All-AtMost-le p [] d e l h = tt
All-AtMost-le p (words ∷ commands) d e l (a, h) =
    (AtMost-le p words d e l a, All-AtMost-le p commands d e l h)

Exists-Matching :
    (p : Policy) (words : List Text) (d : Decision)
    → Has p d words
    → Exists (λ r. Matching words r) p
Exists-Matching [] words d e = elim e [ ]
Exists-Matching (r ∷ p) words d (here h) = here h.0
Exists-Matching (r ∷ p) words d (there e) = there (Exists-Matching p words d e)

append-from :
    {p : Policy} {s : Rule} (commands : List (List Text)) (words : List Text)
    → (s ≡ no_rule) ⊎ Exists (λ ws. Has p s.decision ws) commands
    → (s ≡ no_rule) ⊎ Exists (λ ws. Has p s.decision ws) (commands ++ words ∷ [])
append-from commands words (inl e) = inl e
append-from commands words (inr e) = inr (Exists-append commands (words ∷ []) e)

append-lost :
    (p : Policy) {start : Bool} (commands : List (List Text)) (words : List Text)
    → (start ≡ false) ⊎ Exists (λ ws. All (λ r. matches r ws ≡ false) p) commands
    → (start ≡ false) ⊎ Exists (λ ws. All (λ r. matches r ws ≡ false) p) (commands ++ words ∷ [])
append-lost p commands words (inl e) = inl e
append-lost p commands words (inr e) = inr (Exists-append commands (words ∷ []) e)

stricter-Checked :
    (p : Policy) (start : Bool) (commands : List (List Text)) (words : List Text) (m acc : Found)
    → Level p words m
    → Checked p start commands acc
    → Checked p start (commands ++ words ∷ []) (stricter m acc)
unfolding stricter
stricter-Checked p start commands words (r, false) (s, allowed) (z, none_match) c = record {
  from = append-from commands words c.from;
  upper =
      All-append _ commands (words ∷ []) c.upper
        (AtMost-unmatched p words s.decision none_match, tt);
  all_found = λ h. cc;
  lost = λ _. inr (Exists-last commands words none_match);
}
stricter-Checked p start commands words (r, true) (s, allowed) (has, most) c =
    elim (Bool-cases (ltb (rank s.decision) (rank r.decision))) [
      | inl l ↦ rw l (record {
        from = inr (Exists-last commands words has);
        upper =
            All-append _ commands (words ∷ [])
              (All-AtMost-le p commands s.decision r.decision (ground arith) c.upper) (most, tt);
        all_found = found_all;
        lost = λ h. append-lost p commands words (c.lost h);
      })
      | inr l ↦ rw l (record {
        from = append-from commands words c.from;
        upper =
            All-append _ commands (words ∷ []) c.upper
              (AtMost-le p words r.decision s.decision (ground arith) most, tt);
        all_found = found_all;
        lost = λ h. append-lost p commands words (c.lost h);
      })
    ]
  where
    found_all :
        allowed ≡ true
        → (start ≡ true) × All (λ ws. Exists (λ q. Matching ws q) p) (commands ++ words ∷ [])
    found_all h = (
      (c.all_found h).0,
      All-append _ commands (words ∷ []) (c.all_found h).1
          (Exists-Matching p words r.decision has, tt),
    )

check_loop-Checked :
    (p : Policy) (start : Bool) (seen commands : List (List Text)) (acc : Found)
    → Checked p start seen acc
    → Checked p start (seen ++ commands) (check_loop p commands acc)
unfolding check_loop
check_loop-Checked p start seen [] acc c = rw append-nil c
check_loop-Checked p start seen (words ∷ commands) acc c =
    rw (← append_assoc seen (words ∷ []) commands) (
      check_loop-Checked p start (seen ++ words ∷ []) commands (stricter (match_rule p words) acc)
        (stricter-Checked p start seen words (match_rule p words) acc (match_rule-Level p words) c))

pub checked :
    (p : Policy) (commands : List (List Text))
    → Checked p
        (ltb 0 (length commands))
        commands
        (check_loop p commands (no_rule, ltb 0 (length commands)))
checked p commands =
    check_loop-Checked p (ltb 0 (length commands)) [] commands _
      (record { from = inl refl; upper = tt; all_found = λ h. (h, tt); lost = λ h. inl h })

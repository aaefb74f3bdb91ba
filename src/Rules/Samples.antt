-- ===== src/Rules/Samples.antt =====
-- internal/rules/rules.go: runs on concrete policies and commands.
use uagent_harness.Prelude.{
  ◌≡◌, ◌<◌, ◌↔◌, refl, true, false, Option, some, none, List, [], ◌∷◌, ◌++◌, map, arith, Text,
  codes, Exists, All, length, contains, has_prefix, text_eq,
}
use uagent_harness.Rules.{
  Decision, allow, forbidden, Rule, no_rule, parse_decision, decision_name, base, matches,
  may_match, Policy, check, match_rule, Scanned, forbids, accepts, accepts_all, agrees, better,
  check_loop, first_match, first_may_match, first_rule, forbidden_rules, forbids_in, is_abs,
  match_loop, stricter, verdict,
}
use uagent_harness.Rules.Spec.{Covers, matches_iff, may_match_iff}
use uagent_harness.Rules.Strictest.{Seen, match_rule-Seen}
use uagent_harness.Rules.Verdict.{Has}
use uagent_harness.Rules.Check.{Says, IsProper, Allowed, check-forbidden_iff, check-allow_iff}
use uagent_harness.Rules.Forbids.{In, Grounds, IsClear, forbids-some, forbids-none}

abbrev rule : List (List Text) → Decision → Rule
rule pattern d = record { pattern = pattern; decision = d; justification = []; source = [] }

abbrev allow_git : Rule
allow_git = rule (map codes ("git" ∷ []) ∷ map codes ("status" ∷ "log" ∷ []) ∷ []) allow

abbrev forbid_rm : Rule
forbid_rm = rule (map codes ("rm" ∷ []) ∷ map codes ("-rf" ∷ []) ∷ []) forbidden

abbrev two_rules : Policy
two_rules = allow_git ∷ forbid_rm ∷ []

abbrev git_log : List Text
git_log = map codes ("/usr/bin/git" ∷ "log" ∷ "-p" ∷ [])

abbrev rm_rf : List Text
rm_rf = map codes ("rm" ∷ "-rf" ∷ "x" ∷ [])

abbrev rm_only : List Text
rm_only = codes "rm" ∷ []

abbrev scan_rm : Text → Option (List Scanned)
scan_rm s = some (record { words = rm_only; partial = true } ∷ [])

base_drops_slashes : base (codes "/usr/bin//") ≡ codes "bin"
unfolding base
base_drops_slashes = refl

reads_decision : parse_decision (decision_name forbidden) ≡ some forbidden
unfolding parse_decision decision_name text_eq
reads_decision = refl

forbids_rm : check two_rules (git_log ∷ rm_rf ∷ []) ≡ (forbid_rm, true)
unfolding check verdict check_loop stricter match_rule match_loop better matches accepts_all accepts
    contains text_eq is_abs has_prefix base
forbids_rm = refl

needs_every_command : check two_rules (git_log ∷ rm_only ∷ []) ≡ (no_rule, false)
unfolding check verdict check_loop stricter match_rule match_loop better matches accepts_all accepts
    contains text_eq is_abs has_prefix base
needs_every_command = refl

git_log_allowed : matches allow_git git_log ≡ true
unfolding matches accepts_all accepts contains text_eq is_abs has_prefix base
git_log_allowed = refl

may_forbid : forbids scan_rm two_rules [] ≡ some (forbid_rm, true)
unfolding forbids forbids_in forbidden_rules first_match first_rule matches first_may_match
    may_match agrees accepts contains text_eq
may_forbid = refl

allows_git_alone : forbids scan_rm (allow_git ∷ []) [] ≡ none
unfolding forbids forbids_in forbidden_rules
allows_git_alone = refl

matches_iff_example :
    (matches allow_git git_log ≡ true)
    ↔ ((0 < length allow_git.pattern) × Covers 0 allow_git.pattern git_log)
matches_iff_example = matches_iff allow_git git_log

may_match_iff_example :
    (may_match forbid_rm rm_only ≡ true)
    ↔ ((more : List Text) × (matches forbid_rm (rm_only ++ more) ≡ true))
may_match_iff_example = may_match_iff forbid_rm rm_only (omega arith, (omega arith, tt))

match_rule-Seen_example : Seen git_log two_rules (match_rule two_rules git_log)
match_rule-Seen_example = match_rule-Seen two_rules git_log

check-forbidden_iff_example :
    Says forbidden (check two_rules (git_log ∷ rm_rf ∷ []))
    ↔ Exists (Has two_rules forbidden) (git_log ∷ rm_rf ∷ [])
check-forbidden_iff_example = check-forbidden_iff two_rules (git_log ∷ rm_rf ∷ [])

two_rules-IsProper : IsProper two_rules
two_rules-IsProper = (omega arith, (omega arith, tt))

check-allow_iff_example :
    Says allow (check two_rules (git_log ∷ []))
    ↔ ((0 < length (git_log ∷ [])) × All (Allowed two_rules) (git_log ∷ []))
check-allow_iff_example = check-allow_iff two_rules (git_log ∷ []) two_rules-IsProper

forbids-some_example :
    In forbid_rm two_rules
    × (forbid_rm.decision ≡ forbidden)
    × Grounds two_rules forbid_rm true (scan_rm [])
forbids-some_example = forbids-some scan_rm two_rules [] forbid_rm true may_forbid

forbids-none_example : IsClear (allow_git ∷ []) (scan_rm [])
forbids-none_example = forbids-none scan_rm (allow_git ∷ []) [] allows_git_alone

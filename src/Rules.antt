-- ===== src/Rules.antt =====
-- internal/rules/rules.go: command rules, matched against the words of a command; the strictest
-- matching decision wins.
pub mod Spec
pub mod Strictest
pub mod Verdict
pub mod Check
pub mod Forbids
mod Samples
use mathlib.Core.List.{reverse}
use uagent_harness.Prelude.{
  ℕ, suc, ◌+◌, Bool, true, false, not, ◌&&◌, ◌||◌, Option, none, some, List, [], ◌∷◌, ◌++◌, ◌==◌,
  ltb, leb, if◌then◌else◌, Text, codes, length, contains, text_eq, has_prefix,
}

-- `unset` is the zero value, which no decision name reads as.
pub data Decision : Type 0 where
  unset allow prompt forbidden : Decision

-- The number of a decision: the greater, the stricter.
abbrev pub rank : Decision → ℕ
rank unset = 0
rank allow = 1
rank prompt = 2
rank forbidden = 3

pub parse_decision : Text → Option Decision
parse_decision s =
    if text_eq s (codes "allow")
    then some allow
    else if text_eq s (codes "prompt")
    then some prompt
    else if text_eq s (codes "forbidden")
    then some forbidden
    else none

pub decision_name : Decision → Text
decision_name allow = codes "allow"
decision_name prompt = codes "prompt"
decision_name forbidden = codes "forbidden"
decision_name unset = codes "none"

pub record Rule : Type 0 where
  pub pattern : List (List Text)
  pub decision : Decision
  pub justification : Text
  pub source : Text

abbrev pub no_rule : Rule
no_rule = record { pattern = []; decision = unset; justification = []; source = [] }

-- filepath.IsAbs, on the systems that the program runs on
unfoldable pub is_abs : Text → Bool
is_abs w = has_prefix w (codes "/")

drop_slashes : Text → Text
drop_slashes [] = []
drop_slashes (c ∷ s) = if c == b'/' then drop_slashes s else c ∷ s

take_to_slash : Text → Text
take_to_slash [] = []
take_to_slash (c ∷ s) = if c == b'/' then [] else c ∷ take_to_slash s

abbrev base_name : Text → Text → Text
base_name [] [] = codes "."
base_name (c ∷ w) [] = codes "/"
base_name w (c ∷ s) = reverse (take_to_slash (c ∷ s))

-- filepath.Base: the last element of a path; its trailing slashes are dropped first.
unfoldable pub base : Text → Text
unfolding drop_slashes take_to_slash
base w = base_name w (drop_slashes (reverse w))

-- The test of one word at position `i` of a pattern.
unfoldable pub accepts : ℕ → List Text → Text → Bool
accepts i alts w = contains alts w || (i == 0 && is_abs w && contains alts (base w))

-- The loop of `Matches`, from position `i` on.
unfoldable pub accepts_all : ℕ → List (List Text) → List Text → Bool
accepts_all i [] words = true
accepts_all i (alts ∷ pattern) [] = false
accepts_all i (alts ∷ pattern) (w ∷ words) = accepts i alts w && accepts_all (i + 1) pattern words

unfoldable pub matches : Rule → List Text → Bool
matches r words =
    if ltb (length words) (length r.pattern) || length r.pattern == 0
    then false
    else accepts_all 0 r.pattern words

-- The loop of `mayMatch`: the words agree with the pattern as far as they go.
unfoldable pub agrees : ℕ → List (List Text) → List Text → Bool
agrees i pattern [] = true
agrees i [] (w ∷ words) = false
agrees i (alts ∷ pattern) (w ∷ words) = accepts i alts w && agrees (i + 1) pattern words

unfoldable pub may_match : Rule → List Text → Bool
may_match r words =
    if leb (length r.pattern) (length words) then matches r words else agrees 0 r.pattern words

abbrev pub Policy : Type 0
Policy = List Rule

unfoldable pub with_rules : Policy → List Rule → Policy
with_rules p rules = p ++ rules

-- A rule, and whether one was found.
abbrev pub Found : Type 0
Found = Rule × Bool

-- One round of the loop of `Match`.
unfoldable pub better : List Text → Rule → Found → Found
better words r (best, found) =
    if matches r words && (not found || ltb (rank best.decision) (rank r.decision))
    then (r, true)
    else (best, found)

unfoldable pub match_loop : List Text → List Rule → Found → Found
match_loop words [] acc = acc
match_loop words (r ∷ rules) acc = match_loop words rules (better words r acc)

unfoldable pub match_rule : Policy → List Text → Found
match_rule p words = match_loop words p (no_rule, false)

-- One round of the loop of `Check`: the strictest rule so far, and whether all commands matched.
unfoldable pub stricter : Found → Found → Found
stricter (r, false) (strictest, allowed) = (strictest, false)
stricter (r, true) (strictest, allowed) =
    if ltb (rank strictest.decision) (rank r.decision) then (r, allowed) else (strictest, allowed)

unfoldable pub check_loop : Policy → List (List Text) → Found → Found
check_loop p [] acc = acc
check_loop p (words ∷ commands) acc = check_loop p commands (stricter (match_rule p words) acc)

unfoldable pub verdict : Found → Found
verdict (strictest, allowed) =
    if rank strictest.decision == 1 && not allowed
    then (no_rule, false)
    else (strictest, not (rank strictest.decision == 0))

unfoldable pub check : Policy → List (List Text) → Found
check p commands = verdict (check_loop p commands (no_rule, ltb 0 (length commands)))

-- A simple command found anywhere in a shell command; its words stop at the first word that is not
-- plain text, and `partial` says that they did.
pub record Scanned : Type 0 where
  pub words : List Text
  pub partial : Bool

unfoldable pub forbidden_rules : List Rule → List Rule
forbidden_rules [] = []
forbidden_rules (r ∷ rules) =
    let rest = forbidden_rules rules in if rank r.decision == 3 then r ∷ rest else rest

-- The first rule of the list that passes a test.
unfoldable pub first_rule : (Rule → Bool) → List Rule → Option Rule
first_rule test [] = none
first_rule test (r ∷ rules) = let rest = first_rule test rules in if test r then some r else rest

abbrev pub or_else : Option Rule → Option Rule → Option Rule
or_else (some r) other = some r
or_else none other = other

-- The first pass over the commands: rules that match.
unfoldable pub first_match : List Rule → List Scanned → Option Rule
first_match rules [] = none
first_match rules (c ∷ commands) =
    or_else (first_rule (λ r. matches r c.words) rules) (first_match rules commands)

-- The second pass: rules that may match a command whose words stopped early.
unfoldable pub first_may_match : List Rule → List Scanned → Option Rule
first_may_match rules [] = none
first_may_match rules (c ∷ commands) =
    or_else (if c.partial then first_rule (λ r. may_match r c.words) rules else none)
      (first_may_match rules commands)

-- The rule found, and whether it only may match; `none` when there is none.
abbrev pub Forbidding : Type 0
Forbidding = Option (Rule × Bool)

abbrev by_passes : Option Rule → Option Rule → Forbidding
by_passes (some r) second = some (r, false)
by_passes none (some r) = some (r, true)
by_passes none none = none

-- `scan` is the scan of the shell command: the simple commands in it, or `none` if it does not
-- parse. The parser and its tree walk are a library's.
unfoldable pub forbids_in : List Rule → Option (List Scanned) → Forbidding
forbids_in [] scanned = none
forbids_in (r ∷ rules) none = some (r, true)
forbids_in (r ∷ rules) (some commands) =
    by_passes (first_match (r ∷ rules) commands) (first_may_match (r ∷ rules) commands)

unfoldable pub forbids : (Text → Option (List Scanned)) → Policy → Text → Forbidding
forbids scan p command = forbids_in (forbidden_rules p) (scan command)

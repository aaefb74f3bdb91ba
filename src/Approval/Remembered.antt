-- ===== src/Approval/Remembered.antt =====
-- internal/approval: "don't ask again" is not asked again.
use uagent_harness.Prelude.{
  ℕ, suc, ◌+◌, ◌≤◌, ◌<◌, true, false, not, ◌&&◌, ◌≡◌, inl, inr, refl, ◌∙◌, sym, ap, Option, some,
  List, [], ◌∷◌, ◌++◌, map, arith, Text, All, All-append, here, Exists-last, Bool-cases, length,
  take, drop, take-append-drop, append-nil, ltb, &&_iff, texts_eq_sound,
}
use uagent_harness.Rules
use uagent_harness.Rules.{
  Rule, rank, unset, allow, prompt, Found, check, check_loop, verdict, no_rule, matches, with_rules,
}
use uagent_harness.Rules.Spec.{Covers, done, next, matches_iff}
use uagent_harness.Rules.Verdict.{AtMost, All-AtMost-le, checked}
use uagent_harness.Rules.Check.{Says, IsProper, Allowed, check-allow_iff}
use uagent_harness.Approval.{
  Request, unsandboxed, Approver, Event, decided, Shell, by_rule, forbids_unsplit, ruled_or_asked,
  refused_or_ruled, decide, words_of, is_split, runs, allow_rule, allow_prefix,
}
use uagent_harness.Approval.Prefix.{
  covers, covers_each, covers_all, propose_prefix, banned, one_command,
}

-- A command starts with the words of the prefix.
abbrev StartsWith : List Text → List Text → Type 0
StartsWith prefix words = (rest : List Text) × (words ≡ prefix ++ rest)

take-StartsWith :
    (prefix words : List Text) → take (length prefix) words ≡ prefix → StartsWith prefix words
take-StartsWith prefix words e = (
  drop (length prefix) words,
  sym (take-append-drop (length prefix) words) ∙ ap (λ x. x ++ drop (length prefix) words) e,
)

covers-StartsWith :
    (prefix words : List Text) → covers prefix words ≡ true → StartsWith prefix words
unfolding covers
covers-StartsWith prefix words h =
    take-StartsWith prefix words (texts_eq_sound _ _ ((&&_iff _ _).0 h).1)

-- The rule for a prefix covers what starts with it.
Covers-map :
    (i : ℕ) (prefix rest : List Text) → Covers i (map (λ w. w ∷ []) prefix) (prefix ++ rest)
Covers-map i [] rest = done
Covers-map i (w ∷ prefix) rest = next (inl (here refl)) (Covers-map (i + 1) prefix rest)

length-map : (prefix : List Text) → length (map (λ (w : Text). w ∷ []) prefix) ≡ length prefix
length-map [] = refl
length-map (w ∷ prefix) = ap suc (length-map prefix)

allow_rule-matches :
    (prefix words : List Text)
    → 0 < length prefix
    → StartsWith prefix words
    → matches (allow_rule prefix) words ≡ true
allow_rule-matches prefix words pos (rest, e) =
    (matches_iff (allow_rule prefix) words).1
      (omega (arith, length-map prefix), rw e (Covers-map 0 prefix rest))

covers_each-StartsWith :
    (prefix : List Text) (commands : List (List Text))
    → covers_each prefix commands ≡ true
    → All (StartsWith prefix) commands
unfolding covers_each
covers_each-StartsWith prefix [] h = tt
covers_each-StartsWith prefix (words ∷ commands) h =
    let (a, b) = (&&_iff (covers prefix words) _).0 h in
    (covers-StartsWith prefix words a, covers_each-StartsWith prefix commands b)

-- A proposed prefix is one that every command starts with, and there is a command.
abbrev pub Proposed : List Text → List (List Text) → Type 0
Proposed prefix commands = (0 < length commands) × All (StartsWith prefix) commands

StartsWith-refl : (words : List Text) → StartsWith words words
StartsWith-refl words = ([], sym (append-nil words))

covers_all-Proposed :
    (prefix : List Text) (commands : List (List Text))
    → covers_all prefix commands ≡ true
    → Proposed prefix commands
unfolding covers_all
covers_all-Proposed prefix [] h = cc
covers_all-Proposed prefix (words ∷ commands) h =
    (omega arith, covers_each-StartsWith prefix (words ∷ commands) h)

one_command-Proposed :
    (commands : List (List Text))
    → 0 < length (one_command commands)
    → Proposed (one_command commands) commands
one_command-Proposed [] h = absurd (omega arith)
one_command-Proposed (words ∷ []) h = elim (Bool-cases (banned words)) [
  | inl e ↦ absurd (no_words (rw e at h))
  | inr e ↦ rw e (omega arith, (StartsWith-refl words, tt))
]
  where
    no_words : 0 < length {A = Text} [] → ⊥
    no_words h = omega arith
one_command-Proposed (words ∷ _ ∷ _) h = absurd (omega arith)

propose_prefix-Proposed :
    (suggested : List Text) (commands : List (List Text))
    → 0 < length (propose_prefix suggested commands)
    → Proposed (propose_prefix suggested commands) commands
unfolding propose_prefix
propose_prefix-Proposed suggested commands h =
    elim (Bool-cases
      (ltb 0 (length suggested) && not (banned suggested) && covers_all suggested commands)) [
        | inl e ↦ rw e (covers_all-Proposed suggested commands ((&&_iff _ _).0 e).1)
        | inr e ↦ rw e (one_command-Proposed commands (rw e at h))
      ]

verdict-unmatched : (f : Found) → (verdict f).1 ≡ false → rank f.0.decision ≤ rank allow
unfolding verdict
verdict-unmatched (s, allowed) h = ground arith

-- Nothing decided means that no matching rule is stricter than allow.
check_unmatched :
    (p : Rules.Policy) (commands : List (List Text))
    → (check p commands).1 ≡ false
    → All (AtMost p allow) commands
unfolding check
check_unmatched p commands h =
    All-AtMost-le p commands _ allow (verdict-unmatched _ h) (checked p commands).upper

with-Allowed :
    (p : Rules.Policy) (prefix : List Text) (commands : List (List Text))
    → 0 < length prefix
    → All (StartsWith prefix) commands
    → All (AtMost p allow) commands
    → All (Allowed (with_rules p (allow_rule prefix ∷ []))) commands
unfolding with_rules
with-Allowed p prefix [] pos s m = tt
with-Allowed p prefix (words ∷ commands) pos (a, s) (b, m) = (
  (
    Exists-last p (allow_rule prefix) (allow_rule-matches prefix words pos a, refl),
    All-append _ p (allow_rule prefix ∷ []) b (λ _. omega arith, tt),
  ),
  with-Allowed p prefix commands pos s m,
)

with-IsProper :
    (p : Rules.Policy) (prefix : List Text)
    → IsProper p
    → IsProper (with_rules p (allow_rule prefix ∷ []))
unfolding with_rules
with-IsProper p prefix h = All-append _ p (allow_rule prefix ∷ []) h (omega arith, tt)

by_rule-allow : (req : Request) (f : Found) → Says allow f → by_rule req f ≡ some (runs unsandboxed)
unfolding by_rule
by_rule-allow req (rule, matched) (t, e) = rw (t, e)

refused_or_ruled-allow :
    (sh : Shell) (a : Approver) (req : Request) (ask : Option (List Event))
    (parsed : Option (List (List Text))) (commands : List (List Text)) (found : Rules.Forbidding)
    → parsed ≡ some commands
    → Says allow (check a.rules commands)
    → refused_or_ruled sh a req (words_of parsed) ask (forbids_unsplit (is_split parsed) found)
      ≡ decided (runs unsandboxed) a
unfolding refused_or_ruled forbids_unsplit ruled_or_asked
refused_or_ruled-allow sh a req ask parsed commands found e h =
    rw e (rw (by_rule-allow req (check a.rules commands) h))

-- Once a prefix is allowed, a command is run outside the sandbox without asking, if each of its
-- simple commands starts with the prefix and no stricter rule matches one.
pub decide-allow_prefix :
    (sh : Shell) (a : Approver) (req : Request) (ask : Option (List Event)) (prefix : List Text)
    (commands : List (List Text))
    → sh.split req.command ≡ some commands
    → IsProper a.rules
    → 0 < length prefix
    → Proposed prefix commands
    → All (AtMost a.rules allow) commands
    → decide sh (allow_prefix sh a prefix).1 req ask
      ≡ decided (runs unsandboxed) (allow_prefix sh a prefix).1
unfolding decide allow_prefix
decide-allow_prefix sh a req ask prefix commands e proper pos (some_command, starts) m =
    refused_or_ruled-allow sh _ req ask (sh.split req.command) commands _ e (
      (check-allow_iff _ commands (with-IsProper a.rules prefix proper)).1
        (some_command, with-Allowed a.rules prefix commands pos starts m))

-- "Don't ask again" holds: when no rule decided a command and the prefix proposed for it is
-- allowed, the same command is then run outside the sandbox without asking, for any request.
pub decide_remembered :
    (sh : Shell) (a : Approver) (req : Request) (ask : Option (List Event)) (suggested : List Text)
    (commands : List (List Text))
    → sh.split req.command ≡ some commands
    → IsProper a.rules
    → (check a.rules commands).1 ≡ false
    → 0 < length (propose_prefix suggested commands)
    → decide sh (allow_prefix sh a (propose_prefix suggested commands)).1 req ask
      ≡ decided (runs unsandboxed) (allow_prefix sh a (propose_prefix suggested commands)).1
decide_remembered sh a req ask suggested commands e proper h pos =
    decide-allow_prefix sh a req ask (propose_prefix suggested commands) commands e proper pos
      (propose_prefix-Proposed suggested commands pos) (check_unmatched a.rules commands h)

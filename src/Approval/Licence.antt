-- ===== src/Approval/Licence.antt =====
-- internal/approval: what a command needs before it runs outside the sandbox.
use uagent_harness.Prelude.{
  Bool, true, false, ◌||◌, ◌≡◌, ◌⊎◌, inl, inr, refl, ◌∙◌, sym, ap, Option, none, some, List, [],
  ◌∷◌, arith, Text, Exists, here, there, Bool-cases, text_eq, subst, if◌then◌else◌,
}
use uagent_harness.Rules
use uagent_harness.Rules.{rank, allow, Found, Forbidding, check, forbids}
use uagent_harness.Rules.Check.{Says}
use uagent_harness.Approval.{
  Request, Run, deny, sandboxed, unsandboxed, Decision, Prompt, Approver, Event, woken, answered,
  Asked, settled, answer, open_still, Outcome, decided, waiting, Shell, by_rule, forbids_unsplit,
  ruled_or_asked, refused_or_ruled, decide, words_of, prompt_for, approval_needed, Answer,
  is_approved, approve, approve_tool, approve_prefix, wait_loop, ask_unless, answer_decision,
  remember, finish, ask_user, ask_or_refuse, cannot_ask, decline_reason, declined, settle,
}

abbrev pub events_of : Option (List Event) → List Event
events_of none = []
events_of (some events) = events

-- The rules in force at the start, or those at a wake of the open prompt.
abbrev pub Consulted : Rules.Policy → Approver → Option (List Event) → Type 0
Consulted p a ask = (p ≡ a.rules) ⊎ Exists (λ e. e ≡ woken p) (events_of ask)

-- What lets a command run outside the sandbox.
pub data Licence (a : Approver) (req : Request) (commands : List (List Text))
    (ask : Option (List Event)) : Type 0 where
  by_rules :
      (p : Rules.Policy)
      → Consulted p a ask
      → Says allow (check p commands)
      → Licence a req commands ask
  by_bypass : req.bypass ≡ true → Licence a req commands ask
  by_hook :
      (req.escalated || req.no_sandbox) ≡ true → req.approved ≡ true → Licence a req commands ask
  by_user :
      (req.escalated || req.no_sandbox) ≡ true
      → (ans : Answer) (p : Rules.Policy) → Exists (λ e. e ≡ answered ans p) (events_of ask)
      → is_approved ans ≡ true
      → Licence a req commands ask

by_rule-unsandboxed :
    (req : Request) (f : Found) (d : Decision)
    → by_rule req f ≡ some d
    → d.run ≡ unsandboxed
    → Says allow f
unfolding by_rule
by_rule-unsandboxed req (rule, matched) d e h = ground arith

settle-answer :
    (rest : Asked) (p q : Rules.Policy) (o : Option Decision) (ans : Answer)
    → settle rest p o ≡ answer ans q
    → rest ≡ answer ans q
unfolding settle
settle-answer rest p q (some d) ans h = cc
settle-answer rest p q none ans h = h

settle-settled :
    (rest : Asked) (p q : Rules.Policy) (o : Option Decision) (d : Decision)
    → settle rest p o ≡ settled d q
    → ((p ≡ q) × (o ≡ some d)) ⊎ (rest ≡ settled d q)
unfolding settle
settle-settled rest p q (some c) d h = let e : c ≡ d = cc in inl (cc, ap (λ x. some x) e)
settle-settled rest p q none d h = inr h

wait_loop-answer :
    (ruled : Rules.Policy → Option Decision) (events : List Event) (ans : Answer) (p : Rules.Policy)
    → wait_loop ruled events ≡ answer ans p
    → Exists (λ e. e ≡ answered ans p) events
unfolding wait_loop
wait_loop-answer ruled [] ans p h = cc
wait_loop-answer ruled (answered b q ∷ events) ans p h = here (ground arith)
wait_loop-answer ruled (woken q ∷ events) ans p h =
    there (wait_loop-answer ruled events ans p (settle-answer _ q p (ruled q) ans h))

wait_loop-settled :
    (ruled : Rules.Policy → Option Decision) (events : List Event) (d : Decision) (p : Rules.Policy)
    → wait_loop ruled events ≡ settled d p
    → (ruled p ≡ some d) × Exists (λ e. e ≡ woken p) events
unfolding wait_loop
wait_loop-settled ruled [] d p h = cc
wait_loop-settled ruled (answered b q ∷ events) d p h = cc
wait_loop-settled ruled (woken q ∷ events) d p h =
    elim (settle-settled (wait_loop ruled events) q p (ruled q) d h) [
      | inl (m, e) ↦ (ap ruled (sym m) ∙ e, here (ap woken m))
      | inr k ↦ let (a, b) = wait_loop-settled ruled events d p k in (a, there b)
    ]

-- How a decided command runs.
abbrev pub run_of : Outcome → Run
run_of (decided d a) = d.run
run_of waiting = deny

run_of-remember :
    (sh : Shell) (a : Approver) (prefix : List Text) (run : Run)
    → run_of (remember sh a prefix run) ≡ run
unfolding remember
run_of-remember sh a [] run = refl
run_of-remember sh a (w ∷ prefix) run = refl

declined_run : (o : Option Text) → (declined o).run ≡ deny
declined_run none = refl
declined_run (some reason) = refl

-- An answer runs the command as the prompt says if it approves, and refuses it otherwise.
pub run_of-answer_decision :
    (sh : Shell) (a : Approver) (ans : Answer) (p : Prompt) (run : Run)
    → run_of (answer_decision sh a ans p run) ≡ (if is_approved ans then run else deny)
unfolding answer_decision is_approved
run_of-answer_decision sh a ans p run = elim (Bool-cases (text_eq ans approve)) [
  | inl e ↦ rw e
  | inr e ↦ elim (Bool-cases (text_eq ans approve_tool)) [
    | inl f ↦ elim (Bool-cases (text_eq ans approve_prefix)) [
      | inl g ↦ rw (e, f, g)
      | inr g ↦ rw (e, f, g)
    ]
    | inr f ↦ elim (Bool-cases (text_eq ans approve_prefix)) [
      | inl g ↦ rw (e, f, g) (run_of-remember sh a p.proposed_prefix run)
      | inr g ↦ rw (e, f, g) (declined_run (decline_reason ans))
    ]
  ]
]

if-unsandboxed :
    (b : Bool) (run : Run)
    → (if b then run else deny) ≡ unsandboxed
    → (b ≡ true) × (run ≡ unsandboxed)
if-unsandboxed true run h = (refl, h)
if-unsandboxed false run h = cc

two_tests :
    (b c : Bool) (x y z : Outcome)
    → run_of (if b then x else if c then y else z) ≡ unsandboxed
    → (b ≡ true) ⊎ (((c ≡ true) × (run_of y ≡ unsandboxed)) ⊎ (run_of z ≡ unsandboxed))
two_tests true c x y z h = inl refl
two_tests false true x y z h = inr (inl (refl, h))
two_tests false false x y z h = inr (inr h)

module _ (sh : Shell) (a : Approver) (req : Request) (commands : List (List Text)) where
  finish-Licence :
      (events : List Event) (p : Prompt) (run : Run) (asked : Asked)
      → (run ≡ unsandboxed → (req.escalated || req.no_sandbox) ≡ true)
      → ask_unless (λ rules. by_rule req (check rules commands)) a.rules events ≡ asked
      → run_of (finish sh a p run asked) ≡ unsandboxed
      → Licence a req commands (some events)
  unfolding finish ask_unless
  finish-Licence events p run (settled d q) esc h k = elim (settle-settled _ a.rules q _ d h) [
    | inl (m, e) ↦
        by_rules a.rules (inl refl) (by_rule-unsandboxed req (check a.rules commands) d e k)
    | inr h' ↦
        let (e, m) = wait_loop-settled _ events d q h' in
        by_rules q (inr m) (by_rule-unsandboxed req (check q commands) d e k)
  ]
  finish-Licence events p run (answer ans q) esc h k =
      let (ok, out) =
        if-unsandboxed (is_approved ans) run
          (sym (run_of-answer_decision sh (record a { rules = q }) ans p run) ∙ k) in
      by_user (esc out) ans q (wait_loop-answer _ events ans q (settle-answer _ a.rules q _ ans h))
        ok
  finish-Licence events p run open_still esc h k = cc

  ask_or_refuse-Licence :
      (p : Prompt) (run : Run) (ask : Option (List Event)) (reason : Text)
      → (run ≡ unsandboxed → (req.escalated || req.no_sandbox) ≡ true)
      → run_of (ask_or_refuse sh a req p run commands ask reason) ≡ unsandboxed
      → Licence a req commands ask
  unfolding ask_or_refuse
  ask_or_refuse-Licence p run ask (c ∷ reason) esc k = cc
  ask_or_refuse-Licence p run none [] esc k = cc
  ask_or_refuse-Licence p run (some events) [] esc k = finish-Licence events p run _ esc refl k

  escalation_run : (b : Bool) → (if b then unsandboxed else sandboxed) ≡ unsandboxed → b ≡ true
  escalation_run true h = refl
  escalation_run false h = cc

  approval_needed-Licence :
      (f : Found) (ask : Option (List Event))
      → run_of (approval_needed sh a req f commands ask) ≡ unsandboxed
      → Licence a req commands ask
  unfolding approval_needed prompt_for ask_user
  approval_needed-Licence (rule, matched) ask k = elim (two_tests req.bypass req.approved _ _ _ k) [
    | inl b ↦ by_bypass b
    | inr r ↦ elim r [
      | inl (g, h) ↦ by_hook (escalation_run (req.escalated || req.no_sandbox) h) g
      | inr h ↦
          ask_or_refuse-Licence (prompt_for req (rule, matched) commands) _ ask (cannot_ask a ask)
            (escalation_run (req.escalated || req.no_sandbox)) h
    ]
  ]

  ruled_or_asked-Licence :
      (f : Found) (ask : Option (List Event)) (o : Option Decision)
      → f ≡ check a.rules commands
      → by_rule req f ≡ o
      → run_of (ruled_or_asked sh a req f commands ask o) ≡ unsandboxed
      → Licence a req commands ask
  unfolding ruled_or_asked
  ruled_or_asked-Licence f ask (some d) e h k =
      by_rules a.rules (inl refl) (subst (Says allow) e (by_rule-unsandboxed req f d h k))
  ruled_or_asked-Licence f ask none e h k = approval_needed-Licence f ask k

  refused_or_ruled-Licence :
      (ask : Option (List Event)) (o : Option Decision)
      → ((d : Decision) → o ≡ some d → d.run ≡ deny)
      → run_of (refused_or_ruled sh a req commands ask o) ≡ unsandboxed
      → Licence a req commands ask
  unfolding refused_or_ruled
  refused_or_ruled-Licence ask (some d) h k = let e : d.run ≡ deny = h d refl in cc
  refused_or_ruled-Licence ask none h k =
      ruled_or_asked-Licence (check a.rules commands) ask _ refl refl k

abbrev run_of_some : Option Decision → Run
run_of_some (some d) = d.run
run_of_some none = deny

forbids_unsplit-deny :
    (split : Bool) (found : Forbidding) (d : Decision)
    → forbids_unsplit split found ≡ some d
    → d.run ≡ deny
unfolding forbids_unsplit
forbids_unsplit-deny true found d h = cc
forbids_unsplit-deny false none d h = cc
forbids_unsplit-deny false (some (r, true)) d h = ap (λ o. run_of_some o) (sym h)
forbids_unsplit-deny false (some (r, false)) d h = ap (λ o. run_of_some o) (sym h)

-- A command runs outside the sandbox only by an allow rule, in yolo mode, or with an escalation
-- (asked for, or because there is no sandbox) that a hook or the user's answer approved.
pub decide-Licence :
    (sh : Shell) (a a' : Approver) (req : Request) (ask : Option (List Event)) (d : Decision)
    → decide sh a req ask ≡ decided d a'
    → d.run ≡ unsandboxed
    → Licence a req (words_of (sh.split req.command)) ask
unfolding decide
decide-Licence sh a a' req ask d h k =
    refused_or_ruled-Licence sh a req (words_of (sh.split req.command)) ask _
      (forbids_unsplit-deny _ (forbids sh.scan a.rules req.command)) (ap run_of h ∙ k)

-- ===== src/Approval/Samples.antt =====
-- internal/approval: runs on concrete rules, requests and answers.
use Rules.{
  accepts, accepts_all, agrees, base, better, check, check_loop, first_match, first_may_match,
  first_rule, forbidden_rules, forbids, forbids_in, is_abs, match_loop, match_rule, matches,
  may_match, stricter, verdict, with_rules,
}
use uagent_harness.Prelude.{
  ◌≡◌, ◌<◌, ◌≤◌, inl, inr, refl, true, false, if◌then◌else◌, some, none, List, [], ◌∷◌, arith, Text,
  codes, here, length, contains, has_prefix, join_words, text_eq, texts_eq,
}
use uagent_harness.Rules
use uagent_harness.Rules.{Rule, rank, allow, forbidden, check}
use uagent_harness.Approval.{
  on_request, parse_policy, Request, deny, sandboxed, unsandboxed, Approver, Shell, runs, Event,
  woken, answered, decided, waiting, decide, decide_typed, allow_prefix, approve, approve_prefix,
  decline_because, is_approved, answer_decision, prompt_for, words_of, decline_reason, allow_rule,
  approval_needed, ask_or_refuse, ask_unless, ask_user, by_rule, cannot_ask, finish,
  forbidden_reason, forbids_unsplit, refused_or_ruled, remember, ruled_or_asked, settle, wait_loop,
}
use uagent_harness.Approval.Prefix.{propose_prefix, banned, covers, covers_all, covers_each}
use uagent_harness.Approval.Safety.{IsDenied, decide-IsForbidden}
use uagent_harness.Approval.Waiting.{Unanswered, decide-AsksNoOne, decide-waiting}
use uagent_harness.Approval.Remembered.{decide-allow_prefix, decide_remembered}
use uagent_harness.Approval.Licence.{Licence, run_of, run_of-answer_decision, decide-Licence}

-- A shell whose commands are one word each, and whose rules file can be written.
abbrev words_shell : Shell
words_shell = record {
  split = λ s. some ((s ∷ []) ∷ []);
  scan = λ s. some (record { words = s ∷ []; partial = false } ∷ []);
  append_allow = λ file prefix. none;
}

abbrev forbid_dd : Rule
forbid_dd = record {
  pattern = (codes "dd" ∷ []) ∷ [];
  decision = forbidden;
  justification = codes "it writes to disks";
  source = [];
}

abbrev approver : Approver
approver = record { policy = on_request; rules_file = codes "rules"; rules = forbid_dd ∷ [] }

abbrev request : Text → Request
request command = record {
  command = command;
  cwd = codes "/";
  escalated = true;
  justification = [];
  prefix_rule = [];
  no_sandbox = false;
  bypass = false;
  approved = false;
  tool = [];
  input = [];
}

abbrev yolo_dd : Request
yolo_dd = record (request (codes "dd")) { bypass = true; approved = true }

abbrev make : Request
make = request (codes "make")

abbrev with_make : Approver
with_make = record approver { rules = forbid_dd ∷ allow_rule (codes "make" ∷ []) ∷ [] }

abbrev approved_event : List Event
approved_event = woken approver.rules ∷ answered approve approver.rules ∷ []

policy_names : parse_policy (codes "on-failure") ≡ some on_request
unfolding parse_policy text_eq
policy_names = refl

asks_and_runs :
    decide words_shell approver make (some approved_event) ≡ decided (runs unsandboxed) approver
unfolding decide refused_or_ruled forbids_unsplit ruled_or_asked by_rule check verdict check_loop
    stricter match_rule match_loop better matches accepts_all accepts contains text_eq is_abs banned
    covers covers_all covers_each propose_prefix allow_prefix answer_decision approval_needed
    ask_or_refuse ask_unless ask_user cannot_ask decline_reason finish forbidden_reason prompt_for
    remember settle wait_loop has_prefix join_words texts_eq agrees base first_match first_may_match
    first_rule forbidden_rules forbids forbids_in may_match with_rules
asks_and_runs = refl

still_waits : decide words_shell approver make (some (woken approver.rules ∷ [])) ≡ waiting
unfolding decide refused_or_ruled forbids_unsplit ruled_or_asked by_rule check verdict check_loop
    stricter match_rule match_loop better matches accepts_all accepts contains text_eq is_abs banned
    covers covers_all covers_each propose_prefix allow_prefix answer_decision approval_needed
    ask_or_refuse ask_unless ask_user cannot_ask decline_reason finish forbidden_reason prompt_for
    remember settle wait_loop has_prefix join_words texts_eq agrees base first_match first_may_match
    first_rule forbidden_rules forbids forbids_in may_match with_rules
still_waits = refl

remembers_make :
    decide words_shell approver make (some (answered approve_prefix approver.rules ∷ []))
    ≡ decided (runs unsandboxed) with_make
unfolding decide refused_or_ruled forbids_unsplit ruled_or_asked by_rule check verdict check_loop
    stricter match_rule match_loop better matches accepts_all accepts contains text_eq is_abs banned
    covers covers_all covers_each propose_prefix allow_prefix answer_decision approval_needed
    ask_or_refuse ask_unless ask_user cannot_ask decline_reason finish forbidden_reason prompt_for
    remember settle wait_loop has_prefix join_words texts_eq agrees base first_match first_may_match
    first_rule forbidden_rules forbids forbids_in may_match with_rules
remembers_make = refl

reads_decline : decline_reason (decline_because (codes "no")) ≡ some (codes "no")
unfolding decline_reason decline_because has_prefix
reads_decline = refl

typed_runs_in_sandbox : decide_typed words_shell approver (codes "make") ≡ runs sandboxed
unfolding decide_typed forbids_unsplit check verdict check_loop stricter match_rule match_loop
    better matches accepts_all accepts contains text_eq is_abs has_prefix
typed_runs_in_sandbox = refl

make_unmatched : (check approver.rules ((codes "make" ∷ []) ∷ [])).1 ≡ false
unfolding check verdict check_loop stricter match_rule match_loop better matches accepts_all accepts
    contains text_eq is_abs has_prefix
make_unmatched = refl

make_proposed : 0 < length (propose_prefix [] ((codes "make" ∷ []) ∷ []))
unfolding propose_prefix banned contains text_eq join_words
make_proposed = omega arith

dd_matches : Rules.matches forbid_dd (codes "dd" ∷ []) ≡ true
unfolding matches accepts_all accepts contains text_eq
dd_matches = refl

make_differs : Rules.matches forbid_dd (codes "make" ∷ []) ≡ false
unfolding matches accepts_all accepts contains text_eq is_abs has_prefix
make_differs = refl

make_AtMost : Rules.matches forbid_dd (codes "make" ∷ []) ≡ true → rank forbidden ≤ rank allow
make_AtMost h = ground (arith, make_differs)

decide-IsForbidden_example : IsDenied approver (decide words_shell approver yolo_dd none)
decide-IsForbidden_example =
    decide-IsForbidden words_shell approver yolo_dd none (here (here (dd_matches, refl)))

decide-Licence_example :
    Licence approver make (words_of (words_shell.split make.command)) (some approved_event)
decide-Licence_example =
    decide-Licence words_shell approver approver make (some approved_event) (runs unsandboxed)
      asks_and_runs refl

decide-AsksNoOne_example :
    decide words_shell approver yolo_dd none
    ≡ decide words_shell approver yolo_dd (some approved_event)
decide-AsksNoOne_example =
    decide-AsksNoOne words_shell approver yolo_dd none (some approved_event) (inr (inl refl))

decide-waiting_example :
    (events : List Event) × (some (woken approver.rules ∷ []) ≡ some events) × Unanswered events
decide-waiting_example =
    decide-waiting words_shell approver make (some (woken approver.rules ∷ [])) still_waits

run_of-answer_decision_example :
    run_of
      (answer_decision words_shell approver approve (prompt_for make (check [] []) []) unsandboxed)
    ≡ (if is_approved approve then unsandboxed else deny)
run_of-answer_decision_example =
    run_of-answer_decision words_shell approver approve (prompt_for make (check [] []) [])
      unsandboxed

decide_remembered_example :
    decide words_shell
      (allow_prefix words_shell approver (propose_prefix [] ((codes "make" ∷ []) ∷ []))).1
      make
      none
    ≡ decided
        (runs unsandboxed)
        (allow_prefix words_shell approver (propose_prefix [] ((codes "make" ∷ []) ∷ []))).1
decide_remembered_example =
    decide_remembered words_shell approver make none [] ((codes "make" ∷ []) ∷ []) refl
      (omega arith, tt) make_unmatched make_proposed

decide-allow_prefix_example :
    decide words_shell (allow_prefix words_shell approver (codes "make" ∷ [])).1 make none
    ≡ decided (runs unsandboxed) (allow_prefix words_shell approver (codes "make" ∷ [])).1
decide-allow_prefix_example =
    decide-allow_prefix words_shell approver make none (codes "make" ∷ [])
      ((codes "make" ∷ []) ∷ []) refl (omega arith, tt) (omega arith)
      (omega arith, (([], refl), tt)) ((make_AtMost, tt), tt)

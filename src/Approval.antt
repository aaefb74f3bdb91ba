-- ===== src/Approval.antt =====
-- internal/approval: how a command runs: in the sandbox, outside it, or not at all.
-- approval.go, prefix.go, typed.go, and AskUnless of withdraw.go.
pub mod Prefix
pub mod Safety
pub mod Waiting
pub mod Remembered
pub mod Licence
pub mod Mode
mod Samples
use uagent_harness.Prelude.{
  Bool, true, false, not, ◌&&◌, ◌||◌, Option, none, some, List, [], ◌∷◌, ◌++◌, map, ◌==◌,
  if◌then◌else◌, Text, codes, text_eq, has_prefix, length, drop,
}
use uagent_harness.Rules
use uagent_harness.Rules.{Rule, rank, allow, Scanned, Found, Forbidding, check, forbids, with_rules}
use uagent_harness.Approval.Prefix.{propose_prefix}

-- approval_policy. The empty name, which `New` reads as on-request, has no constructor.
pub data AskPolicy : Type 0 where
  on_request never : AskPolicy

pub parse_policy : Text → Option AskPolicy
parse_policy s =
    if text_eq s [] || text_eq s (codes "on-request") || text_eq s (codes "on-failure")
    then some on_request
    else if text_eq s (codes "never")
    then some never
    else none

pub record Request : Type 0 where
  pub command : Text
  pub cwd : Text
  pub escalated : Bool
  pub justification : Text
  pub prefix_rule : List Text
  pub no_sandbox : Bool
  pub bypass : Bool
  pub approved : Bool
  pub tool : Text
  pub input : Text

pub data Run : Type 0 where
  deny sandboxed unsandboxed : Run

pub record Decision : Type 0 where
  pub run : Run
  pub reason : Text

pub record Prompt : Type 0 where
  pub command : Text
  pub cwd : Text
  pub justification : Text
  pub escalation : Bool
  pub proposed_prefix : List Text
  pub tool : Text
  pub input : Text
  pub mcp_tool : Text

-- An answer is a text, as in the source: other texts than these decline.
abbrev pub Answer : Type 0
Answer = Text

abbrev pub approve : Answer
approve = codes "approve"

abbrev pub approve_prefix : Answer
approve_prefix = codes "approve_prefix"

abbrev pub approve_tool : Answer
approve_tool = codes "approve_tool"

abbrev pub decline_prefix : Text
decline_prefix = codes "decline: "

pub decline_because : Text → Answer
decline_because reason = decline_prefix ++ reason

pub is_approved : Answer → Bool
is_approved a = text_eq a approve || text_eq a approve_prefix || text_eq a approve_tool

pub decline_reason : Answer → Option Text
decline_reason a =
    if has_prefix a decline_prefix then some (drop (length decline_prefix) a) else none

pub record Approver : Type 0 where
  pub policy : AskPolicy
  pub rules_file : Text
  pub rules : Rules.Policy

abbrev pub runs : Run → Decision
runs r = record { run = r; reason = [] }

abbrev because : Text → Text → Text
because separator [] = []
because separator (c ∷ s) = separator ++ (c ∷ s)

pub forbidden_reason : Rule → Text
forbidden_reason r =
    codes "not run: a rule forbids this command"
    ++ (because (codes ": ") r.justification ++ codes ".")

abbrev pub denies : Text → Decision
denies reason = record { run = deny; reason = reason }

-- `none` when the user must be asked.
pub by_rule : Request → Found → Option Decision
by_rule req (rule, matched) =
    if matched && rank rule.decision == 3
    then some (denies (forbidden_reason rule))
    else if matched && rank rule.decision == 1
    then some (runs unsandboxed)
    else if matched && rank rule.decision == 2
    then none
    else if not req.escalated && not req.no_sandbox
    then some (runs sandboxed)
    else none

abbrev justified_by : Bool → Rule → Text → Text
justified_by true rule [] = rule.justification
justified_by true rule (c ∷ s) = c ∷ s
justified_by false rule s = s

pub prompt_for : Request → Found → List (List Text) → Prompt
prompt_for req (rule, matched) commands = record {
  command = req.command;
  cwd = req.cwd;
  justification = justified_by matched rule req.justification;
  escalation = req.escalated || req.no_sandbox;
  proposed_prefix = if matched then [] else propose_prefix req.prefix_rule commands;
  tool = req.tool;
  input = req.input;
  mcp_tool = [];
}

-- Why no one can approve; empty when the user can be asked. `none` is an `ask` that is nil.
pub cannot_ask {ℓ} : {W : Type ℓ} → Approver → Option W → Text
cannot_ask a ask = elim a.policy [
  | never ↦
      codes
        "not run: this command needs the user's approval, and the approval policy is never. Work within the sandbox, or tell the user the command and why it is needed."
  | on_request ↦ elim ask [
    | none ↦
        codes
          "not run: this command needs the user's approval, and no user can approve it in this headless run. Work within the sandbox, or report the command and why it is needed."
    | some _ ↦ []
  ]
]

-- The result of `forbidsUnsplit`; `split` is false when the command does not split.
pub forbids_unsplit : Bool → Forbidding → Option Decision
forbids_unsplit true found = none
forbids_unsplit false none = none
forbids_unsplit false (some (r, false)) = some (denies (forbidden_reason r))
forbids_unsplit false (some (r, true)) = some (
    denies (
      codes
        "not run: the command may run a command a rule forbids, and its words are not all plain text (a variable, glob, or substitution)"
      ++ (because (codes "; the rule says: ") r.justification
          ++ codes ". Write the command out in plain words.")))

abbrev pub allow_rule : List Text → Rule
allow_rule prefix = record {
  pattern = map (λ w. w ∷ []) prefix;
  decision = allow;
  justification = [];
  source = [];
}

-- What may happen while a prompt is open: the rules change and the prompt is woken, or it is
-- answered. Either comes with the rules of the approver at that moment.
pub data Event : Type 0 where
  woken : Rules.Policy → Event
  answered : Answer → Rules.Policy → Event

-- The end of an ask: settled by a rule, answered, or still open after the events.
pub data Asked : Type 0 where
  settled : Decision → Rules.Policy → Asked
  answer : Answer → Rules.Policy → Asked
  open_still : Asked

-- A prompt that a rule settles is withdrawn; else the ask goes on.
pub settle : Asked → Rules.Policy → Option Decision → Asked
settle rest p (some d) = settled d p
settle rest p none = rest

pub wait_loop : (Rules.Policy → Option Decision) → List Event → Asked
wait_loop ruled [] = open_still
wait_loop ruled (answered a p ∷ events) = answer a p
wait_loop ruled (woken p ∷ events) = settle (wait_loop ruled events) p (ruled p)

pub ask_unless : (Rules.Policy → Option Decision) → Rules.Policy → List Event → Asked
ask_unless ruled p events = settle (wait_loop ruled events) p (ruled p)

pub data Outcome : Type 0 where
  decided : Decision → Approver → Outcome
  waiting : Outcome

-- What the approver does not implement: the shell's parser behind `rules.Split` and its scan, and
-- the write to the rules file, `rules.AppendAllow`, which gives an error's text or nothing.
pub record Shell : Type 0 where
  pub split : Text → Option (List (List Text))
  pub scan : Text → Option (List Scanned)
  pub append_allow : Text → List Text → Option Text

abbrev or_empty : Option Text → Text
or_empty none = []
or_empty (some e) = e

abbrev pub declined : Option Text → Decision
declined (some reason) = denies (codes "not run: " ++ reason)
declined none = denies (
    codes
      "not run: the user declined this command. Do not run it again; ask the user what to do instead.")

abbrev pub words_of : Option (List (List Text)) → List (List Text)
words_of none = []
words_of (some commands) = commands

abbrev pub is_split : Option (List (List Text)) → Bool
is_split none = false
is_split (some commands) = true

abbrev typed_rule : Found → Decision
typed_rule (rule, matched) =
    if matched && rank rule.decision == 3
    then denies (forbidden_reason rule)
    else if matched && rank rule.decision == 1
    then runs unsandboxed
    else runs sandboxed

abbrev or_typed_rule : Option Decision → Found → Decision
or_typed_rule (some d) found = d
or_typed_rule none found = typed_rule found

module _ (sh : Shell) where
  -- The rule applies to this session also when the file cannot be written.
  pub allow_prefix : Approver → List Text → Text × Approver
  allow_prefix a prefix = (
    elim a.rules_file [ [] ↦ [] | _ ∷ _ ↦ or_empty (sh.append_allow a.rules_file prefix) ],
    record a { rules = with_rules a.rules (allow_rule prefix ∷ []) },
  )

  pub remember : Approver → List Text → Run → Outcome
  remember a [] run = decided (runs run) a
  remember a (w ∷ prefix) run =
      let (error, a') = allow_prefix a (w ∷ prefix) in
      decided (record { run = run; reason = error }) a'

  -- The user's answer as the decision, and the approver after it.
  pub answer_decision : Approver → Answer → Prompt → Run → Outcome
  answer_decision a ans p run =
      if text_eq ans approve || text_eq ans approve_tool
      then decided (runs run) a
      else if text_eq ans approve_prefix
      then remember a p.proposed_prefix run
      else decided (declined (decline_reason ans)) a

  pub finish : Approver → Prompt → Run → Asked → Outcome
  finish a p run (settled d rules) = decided d (record a { rules = rules })
  finish a p run (answer ans rules) = answer_decision (record a { rules = rules }) ans p run
  finish a p run open_still = waiting

  -- The ask, where some reason does not rule it out.
  pub ask_or_refuse :
      Approver → Request → Prompt → Run → List (List Text) → Option (List Event) → Text → Outcome
  ask_or_refuse a req p run commands ask (c ∷ reason) = decided (denies (c ∷ reason)) a
  ask_or_refuse a req p run commands none [] = waiting
  ask_or_refuse a req p run commands (some events) [] =
      finish a p run (ask_unless (λ rules. by_rule req (check rules commands)) a.rules events)

  pub ask_user :
      Approver → Request → Prompt → Run → List (List Text) → Option (List Event) → Outcome
  ask_user a req p run commands ask = ask_or_refuse a req p run commands ask (cannot_ask a ask)

  -- What needs approval.
  pub approval_needed :
      Approver → Request → Found → List (List Text) → Option (List Event) → Outcome
  approval_needed a req found commands ask =
      let p = prompt_for req found commands in
      let run = if p.escalation then unsandboxed else sandboxed in
      if req.bypass
      then decided (runs unsandboxed) a
      else if req.approved
      then decided (runs run) a
      else ask_user a req p run commands ask

  -- A decision by a rule, or what comes of asking.
  pub ruled_or_asked :
      Approver
      → Request
      → Found
      → List (List Text)
      → Option (List Event)
      → Option Decision
      → Outcome
  ruled_or_asked a req found commands ask (some d) = decided d a
  ruled_or_asked a req found commands ask none = approval_needed a req found commands ask

  -- A refusal of a command that does not split, or what the rules and the user say.
  pub refused_or_ruled :
      Approver → Request → List (List Text) → Option (List Event) → Option Decision → Outcome
  refused_or_ruled a req commands ask (some d) = decided d a
  refused_or_ruled a req commands ask none =
      let found = check a.rules commands in
      ruled_or_asked a req found commands ask (by_rule req found)

  -- `ask` is `none` when no one can answer, else what happens while the prompt is open.
  pub decide : Approver → Request → Option (List Event) → Outcome
  decide a req ask =
      let parsed = sh.split req.command in
      refused_or_ruled a req (words_of parsed) ask
        (forbids_unsplit (is_split parsed) (forbids sh.scan a.rules req.command))

  -- A command that the user typed.
  pub decide_typed : Approver → Text → Decision
  decide_typed a command =
      let parsed = sh.split command in
      or_typed_rule (forbids_unsplit (is_split parsed) (forbids sh.scan a.rules command))
        (check a.rules (words_of parsed))

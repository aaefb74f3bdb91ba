-- ===== src/Approval/Waiting.antt =====
-- internal/approval: when the user is asked, and that an answer ends the ask.
use uagent_harness.Prelude.{
  Bool, true, false, ◌||◌, ◌≡◌, ◌⊎◌, inl, inr, refl, ◌∙◌, ap, Option, none, some, List, [], ◌∷◌,
  arith, Text, text_eq, subst, if◌then◌else◌,
}
use uagent_harness.Rules
use uagent_harness.Rules.{Found, check}
use uagent_harness.Approval.{
  Request, Run, Decision, Prompt, Approver, never, Event, woken, answered, Asked, settled, answer,
  open_still, Outcome, decided, waiting, Shell, by_rule, wait_loop, settle, ask_unless,
  answer_decision, remember, finish, ask_user, ask_or_refuse, cannot_ask, approval_needed,
  ruled_or_asked, refused_or_ruled, decide, prompt_for, sandboxed, unsandboxed, runs, approve,
  approve_tool, approve_prefix, declined, decline_reason,
}

-- No one is asked: the policy says so, or the request needs no answer.
abbrev pub AsksNoOne : Approver → Request → Type 0
AsksNoOne a req = (a.policy ≡ never) ⊎ ((req.bypass ≡ true) ⊎ (req.approved ≡ true))

-- The reason does not depend on what is asked, where the policy is never.
cannot_ask-never :
    (a : Approver) (ask ask' : Option (List Event))
    → a.policy ≡ never
    → cannot_ask a ask ≡ cannot_ask a ask'
unfolding cannot_ask
cannot_ask-never a ask ask' e = rw e

-- It is never empty then, so nothing is asked.
ask_or_refuse-never :
    (sh : Shell) (a : Approver) (req : Request) (p : Prompt) (run : Run)
    (commands : List (List Text)) (ask ask' : Option (List Event)) (reason : Text)
    → (reason ≡ [] → ⊥)
    → ask_or_refuse sh a req p run commands ask reason
      ≡ ask_or_refuse sh a req p run commands ask' reason
unfolding ask_or_refuse
ask_or_refuse-never sh a req p run commands ask ask' [] h = absurd (h refl)
ask_or_refuse-never sh a req p run commands ask ask' (c ∷ reason) h = refl

cannot_ask-ne-nil :
    (a : Approver) (ask : Option (List Event)) → a.policy ≡ never → cannot_ask a ask ≡ [] → ⊥
unfolding cannot_ask
cannot_ask-ne-nil a ask e h = cc (rw e at h)

ask_user-never :
    (sh : Shell) (a : Approver) (req : Request) (p : Prompt) (run : Run)
    (commands : List (List Text)) (ask ask' : Option (List Event))
    → a.policy ≡ never
    → ask_user sh a req p run commands ask ≡ ask_user sh a req p run commands ask'
unfolding ask_user
ask_user-never sh a req p run commands ask ask' e =
    ask_or_refuse-never sh a req p run commands ask ask' (cannot_ask a ask)
      (cannot_ask-ne-nil a ask e)
    ∙ ap (ask_or_refuse sh a req p run commands ask') (cannot_ask-never a ask ask' e)

approval_needed-AsksNoOne :
    (sh : Shell) (a : Approver) (req : Request) (f : Found) (commands : List (List Text))
    (ask ask' : Option (List Event))
    → AsksNoOne a req
    → approval_needed sh a req f commands ask ≡ approval_needed sh a req f commands ask'
unfolding approval_needed
approval_needed-AsksNoOne sh a req f commands ask ask' (inl e) = ground (
  arith,
  ask_user-never sh a req (prompt_for req f commands)
      (if (prompt_for req f commands).escalation then unsandboxed else sandboxed) commands ask ask'
      e,
)
approval_needed-AsksNoOne sh a req f commands ask ask' (inr (inl e)) = ground arith
approval_needed-AsksNoOne sh a req f commands ask ask' (inr (inr e)) = ground arith

ruled_or_asked-AsksNoOne :
    (sh : Shell) (a : Approver) (req : Request) (f : Found) (commands : List (List Text))
    (ask ask' : Option (List Event)) (o : Option Decision)
    → AsksNoOne a req
    → ruled_or_asked sh a req f commands ask o ≡ ruled_or_asked sh a req f commands ask' o
unfolding ruled_or_asked
ruled_or_asked-AsksNoOne sh a req f commands ask ask' (some d) n = refl
ruled_or_asked-AsksNoOne sh a req f commands ask ask' none n =
    approval_needed-AsksNoOne sh a req f commands ask ask' n

refused_or_ruled-AsksNoOne :
    (sh : Shell) (a : Approver) (req : Request) (commands : List (List Text))
    (ask ask' : Option (List Event)) (o : Option Decision)
    → AsksNoOne a req
    → refused_or_ruled sh a req commands ask o ≡ refused_or_ruled sh a req commands ask' o
unfolding refused_or_ruled
refused_or_ruled-AsksNoOne sh a req commands ask ask' (some d) n = refl
refused_or_ruled-AsksNoOne sh a req commands ask ask' none n =
    ruled_or_asked-AsksNoOne sh a req _ commands ask ask' _ n

-- With the policy never, in yolo mode, or after a hook's approval, the decision does not depend on
-- whether anyone can answer, nor on any answer or change while a prompt would wait.
pub decide-AsksNoOne :
    (sh : Shell) (a : Approver) (req : Request) (ask ask' : Option (List Event))
    → AsksNoOne a req
    → decide sh a req ask ≡ decide sh a req ask'
unfolding decide
decide-AsksNoOne sh a req ask ask' n = refused_or_ruled-AsksNoOne sh a req _ ask ask' _ n

-- Only wakes: no answer has come.
abbrev pub Unanswered : List Event → Type 0
Unanswered [] = Unit
Unanswered (woken p ∷ events) = Unanswered events
Unanswered (answered ans p ∷ events) = ⊥

settle-open :
    (rest : Asked) (p : Rules.Policy) (o : Option Decision)
    → settle rest p o ≡ open_still
    → rest ≡ open_still
unfolding settle
settle-open rest p (some d) h = cc
settle-open rest p none h = h

wait_loop-open :
    (ruled : Rules.Policy → Option Decision) (events : List Event)
    → wait_loop ruled events ≡ open_still
    → Unanswered events
unfolding wait_loop
wait_loop-open ruled [] h = tt
wait_loop-open ruled (answered ans p ∷ events) h = cc
wait_loop-open ruled (woken p ∷ events) h =
    wait_loop-open ruled events (settle-open (wait_loop ruled events) p (ruled p) h)

ask_unless-open :
    (ruled : Rules.Policy → Option Decision) (p : Rules.Policy) (events : List Event)
    → ask_unless ruled p events ≡ open_still
    → Unanswered events
unfolding ask_unless
ask_unless-open ruled p events h =
    wait_loop-open ruled events (settle-open (wait_loop ruled events) p (ruled p) h)

-- An outcome that waits is one whose ask has no answer yet.
abbrev WaitsWell : Option (List Event) → Outcome → Type 0
WaitsWell ask (decided d a) = Unit
WaitsWell ask waiting = (events : List Event) × (ask ≡ some events) × Unanswered events

WaitsWell-remember :
    (sh : Shell) (a : Approver) (prefix : List Text) (run : Run) (ask : Option (List Event))
    → WaitsWell ask (remember sh a prefix run)
unfolding remember
WaitsWell-remember sh a [] run ask = tt
WaitsWell-remember sh a (w ∷ prefix) run ask = tt

WaitsWell-if :
    (ask : Option (List Event)) (b : Bool) (x y : Outcome)
    → WaitsWell ask x
    → WaitsWell ask y
    → WaitsWell ask (if b then x else y)
WaitsWell-if ask true x y hx hy = hx
WaitsWell-if ask false x y hx hy = hy

WaitsWell-finish :
    (sh : Shell) (a : Approver) (p : Prompt) (run : Run) (events : List Event) (asked : Asked)
    → (asked ≡ open_still → Unanswered events)
    → WaitsWell (some events) (finish sh a p run asked)
unfolding finish answer_decision
WaitsWell-finish sh a p run events (settled d q) h = tt
WaitsWell-finish sh a p run events (answer ans q) h =
    let b : Approver = record a { rules = q } in
    WaitsWell-if (some events) (text_eq ans approve || text_eq ans approve_tool)
      (decided (runs run) b) _ tt
      (WaitsWell-if (some events) (text_eq ans approve_prefix) (remember sh b p.proposed_prefix run)
        (decided (declined (decline_reason ans)) b)
        (WaitsWell-remember sh b p.proposed_prefix run (some events)) tt)
WaitsWell-finish sh a p run events open_still h = (events, refl, h refl)

WaitsWell-ask_or_refuse :
    (sh : Shell) (a : Approver) (req : Request) (p : Prompt) (run : Run)
    (commands : List (List Text)) (ask : Option (List Event)) (reason : Text)
    → (ask ≡ none → reason ≡ [] → ⊥)
    → WaitsWell ask (ask_or_refuse sh a req p run commands ask reason)
unfolding ask_or_refuse
WaitsWell-ask_or_refuse sh a req p run commands ask (c ∷ reason) h = tt
WaitsWell-ask_or_refuse sh a req p run commands none [] h = absurd (h refl refl)
WaitsWell-ask_or_refuse sh a req p run commands (some events) [] h =
    WaitsWell-finish sh a p run events _
      (ask_unless-open (λ rules. by_rule req (check rules commands)) a.rules events)

cannot_ask-none :
    (a : Approver) (ask : Option (List Event)) → ask ≡ none → cannot_ask a ask ≡ [] → ⊥
unfolding cannot_ask
cannot_ask-none a ask e h = ground arith

WaitsWell-approval_needed :
    (sh : Shell) (a : Approver) (req : Request) (f : Found) (commands : List (List Text))
    (ask : Option (List Event))
    → WaitsWell ask (approval_needed sh a req f commands ask)
unfolding approval_needed ask_user
WaitsWell-approval_needed sh a req f commands ask = WaitsWell-if ask req.bypass _ _ tt (
    WaitsWell-if ask req.approved _ _ tt (
      WaitsWell-ask_or_refuse sh a req _ _ commands ask (cannot_ask a ask) (cannot_ask-none a ask)))

WaitsWell-ruled_or_asked :
    (sh : Shell) (a : Approver) (req : Request) (f : Found) (commands : List (List Text))
    (ask : Option (List Event)) (o : Option Decision)
    → WaitsWell ask (ruled_or_asked sh a req f commands ask o)
unfolding ruled_or_asked
WaitsWell-ruled_or_asked sh a req f commands ask (some d) = tt
WaitsWell-ruled_or_asked sh a req f commands ask none =
    WaitsWell-approval_needed sh a req f commands ask

WaitsWell-refused_or_ruled :
    (sh : Shell) (a : Approver) (req : Request) (commands : List (List Text))
    (ask : Option (List Event)) (o : Option Decision)
    → WaitsWell ask (refused_or_ruled sh a req commands ask o)
unfolding refused_or_ruled
WaitsWell-refused_or_ruled sh a req commands ask (some d) = tt
WaitsWell-refused_or_ruled sh a req commands ask none =
    WaitsWell-ruled_or_asked sh a req _ commands ask _

-- A decision is still open only while a user who can answer has not: with no one to ask, or once an
-- answer has come, there is a decision.
pub decide-waiting :
    (sh : Shell) (a : Approver) (req : Request) (ask : Option (List Event))
    → decide sh a req ask ≡ waiting
    → (events : List Event) × (ask ≡ some events) × Unanswered events
unfolding decide
decide-waiting sh a req ask h =
    subst (WaitsWell ask) h (WaitsWell-refused_or_ruled sh a req _ ask _)

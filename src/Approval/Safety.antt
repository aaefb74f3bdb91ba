-- ===== src/Approval/Safety.antt =====
-- internal/approval: what no mode, answer or wait can bring about.
use uagent_harness.Prelude.{Bool, true, false, ◌≡◌, refl, Option, none, some, List, Text, Exists}
use uagent_harness.Rules
use uagent_harness.Rules.{rank, forbidden, allow, Found, Forbidding, check, forbids}
use uagent_harness.Rules.Verdict.{Has}
use uagent_harness.Rules.Check.{Says, check-forbidden_iff}
use uagent_harness.Approval.{
  Request, deny, Approver, Event, Outcome, decided, waiting, Shell, by_rule, forbids_unsplit,
  ruled_or_asked, refused_or_ruled, decide, words_of, is_split, forbidden_reason,
}

-- A command that the rules forbid: one of its simple commands has a matching forbidden rule, or it
-- does not split and the scan finds a forbidden rule for it.
abbrev pub IsForbidden : Rules.Policy → Option (List (List Text)) → Forbidding → Type 0
IsForbidden p (some commands) found = Exists (Has p forbidden) commands
IsForbidden p none (some r) = Unit
IsForbidden p none none = ⊥

-- The command is refused, and no rule has changed.
abbrev pub IsDenied : Approver → Outcome → Type 0
IsDenied a (decided d a') = (d.run ≡ deny) × (a' ≡ a)
IsDenied a waiting = ⊥

by_rule-forbidden :
    (req : Request) (f : Found)
    → Says forbidden f
    → (reason : Text) × (by_rule req f ≡ some (record { run = deny; reason = reason }))
unfolding by_rule
by_rule-forbidden req (rule, matched) (t, e) = (forbidden_reason rule, rw (t, e))

forbids_unsplit-some :
    (r : Rules.Rule × Bool)
    → (reason : Text) × (forbids_unsplit false (some r)
        ≡ some (record { run = deny; reason = reason }))
unfolding forbids_unsplit
forbids_unsplit-some (r, true) = (_, refl)
forbids_unsplit-some (r, false) = (_, refl)

refused-IsDenied :
    (sh : Shell) (a : Approver) (req : Request) (ask : Option (List Event))
    (parsed : Option (List (List Text))) (found : Forbidding)
    → IsForbidden a.rules parsed found
    → IsDenied a
        (refused_or_ruled sh a req (words_of parsed) ask (forbids_unsplit (is_split parsed) found))
unfolding refused_or_ruled
refused-IsDenied sh a req ask (some commands) found h =
    let (reason, e) =
      by_rule-forbidden req (check a.rules commands) ((check-forbidden_iff a.rules commands).1 h) in
    unfold forbids_unsplit ruled_or_asked in rw e (refl, refl)
refused-IsDenied sh a req ask none (some r) h =
    let (reason, e) = forbids_unsplit-some r in rw e (refl, refl)
refused-IsDenied sh a req ask none none h = absurd h

-- A command that the rules forbid is refused, whatever the request asks for, in yolo mode and after
-- a hook's approval too, and whatever is answered while it waits; the rules stay as they are.
pub decide-IsForbidden :
    (sh : Shell) (a : Approver) (req : Request) (ask : Option (List Event))
    → IsForbidden a.rules (sh.split req.command) (forbids sh.scan a.rules req.command)
    → IsDenied a (decide sh a req ask)
unfolding decide
decide-IsForbidden sh a req ask h = refused-IsDenied sh a req ask (sh.split req.command) _ h

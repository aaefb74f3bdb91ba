-- ===== src/Approval/Mode/Samples.antt =====
-- internal/approval/mode.go: runs on concrete modes.
use uagent_harness.Prelude.{[], ◌≡◌, ◌↔◌, refl, true, false, some, none, codes, contains, text_eq}
use uagent_harness.Approval.Mode.{
  full_access, in_workspace, workspace, auto, yolo, parse_mode, next, sandbox_of, mode_for,
  asks_no_one, modes_offered, reviewer_decides, label, Mode, read_only, index_of, or_default,
}
use uagent_harness.Approval.Mode.Cycle.{Follows, next-Follows, sandbox_of_iff}

empty_name : parse_mode [] ≡ some workspace
unfolding parse_mode text_eq
empty_name = refl

other_name : parse_mode (codes "fast") ≡ none
unfolding parse_mode text_eq contains
other_name = refl

round_the_end : next false auto ≡ some read_only
unfolding next index_of text_eq or_default
round_the_end = refl

to_yolo : next true auto ≡ some yolo
unfolding next index_of text_eq or_default
to_yolo = refl

keeps_the_sandbox : sandbox_of (mode_for (some in_workspace)) ≡ in_workspace
unfolding sandbox_of mode_for text_eq or_default
keeps_the_sandbox = refl

labels_default : label [] ≡ codes "workspace"
unfolding label text_eq or_default
labels_default = refl

reviewer_of_auto : reviewer_decides auto ≡ true
unfolding reviewer_decides text_eq
reviewer_of_auto = refl

next-Follows_example : (n : Mode) × (next true auto ≡ some n) × Follows (modes_offered true) auto n
unfolding or_default
next-Follows_example = next-Follows true auto

sandbox_of_iff_example : (sandbox_of yolo ≡ full_access) ↔ (asks_no_one yolo ≡ true)
sandbox_of_iff_example = sandbox_of_iff yolo

-- ===== src/Tui/Questions/Sent.antt =====
-- internal/tui/state/questions.go: the answers are sent when every question has one.
use uagent_harness.Tui.Questions.{Questions}

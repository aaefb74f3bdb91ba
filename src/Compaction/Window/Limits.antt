-- ===== src/Compaction/Window/Limits.antt =====
-- internal/compaction/window.go: what the meter of the context shows.
use uagent_harness.Prelude.{ℕ, ◌/◌, ◌≤◌, ◌<◌, ◌≡◌, arith}
use uagent_harness.Compaction.Window.{
  Settings, maximum, keep_for, remote_keep_for, remote_keep_tokens,
}
use uagent_harness.Compaction.Record.{default_keep}

-- Without a setting, a compaction keeps at least one token of user messages and at most the default,
-- and more than one only within a quarter of the window; a remote compaction is the same with its own default.
keep_for-le :
    (s : Settings) (window : ℕ)
    → s.user_message_max_tokens ≡ 0
    → 0 < window
    → ((1 ≤ keep_for s window)
        × (keep_for s window ≤ default_keep)
        × (keep_for s window ≤ maximum (window / 4) 1))
      × ((1 ≤ remote_keep_for s window)
          × (remote_keep_for s window ≤ remote_keep_tokens)
          × (remote_keep_for s window ≤ maximum (window / 4) 1))
unfolding keep_for remote_keep_for
keep_for-le s window e pos =
    ((ground arith, ground arith, ground arith), (ground arith, ground arith, ground arith))

-- ===== src/Compaction/Window/Samples.antt =====
-- internal/compaction/window.go and settings.go: a window of 272,000 tokens and a small one.
use uagent_harness.Prelude.{◌≡◌, refl, none, some, [], codes, text_eq, trim_space}
use uagent_harness.Compaction.Record.{default_keep}
use uagent_harness.Compaction.Window.{
  context_window, auto_limit, percent_left, Settings, limit, summary_prompt, kept_tokens,
  remote_keep_for, keep_for,
}

abbrev settings : Settings
settings = record { percent = 90; token_limit = 200000; prompt = []; user_message_max_tokens = 0 }

looks_up : context_window (codes "m") 0 (λ m. some 100000) ≡ 100000
unfolding context_window
looks_up = refl

falls_back : context_window (codes "m") 0 (λ m. none) ≡ 272000
unfolding context_window
falls_back = refl

limits : auto_limit 272000 90 ≡ 244800
unfolding auto_limit
limits = refl

takes_lower : limit settings 272000 ≡ 200000
unfolding limit auto_limit
takes_lower = refl

starts_full : percent_left 12000 272000 ≡ 100
unfolding percent_left
starts_full = refl

keeps_quarter : keep_for settings 10000 ≡ 2500
unfolding keep_for
keeps_quarter = refl

keeps_more_remotely : remote_keep_for settings 400000 ≡ 64000
unfolding remote_keep_for
keeps_more_remotely = refl

keeps_default : kept_tokens settings ≡ default_keep
unfolding kept_tokens
keeps_default = refl

focuses :
    summary_prompt (codes "P") settings (codes " tests ")
    ≡ codes "P\n\nThe user asked this summary to focus on:\ntests"
unfolding summary_prompt text_eq trim_space
focuses = refl

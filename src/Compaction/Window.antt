-- ===== src/Compaction/Window.antt =====
-- internal/compaction/window.go and settings.go: context windows, the limits of automatic
-- compaction, and the caps on kept messages. A value that is not positive is 0.
pub mod Limits
mod Samples
use uagent_harness.Prelude.{
  ℕ, ◌+◌, ◌-◌, ◌*◌, ◌/◌, Bool, true, false, ◌||◌, Option, none, some, ◌==◌, ltb, leb, if◌then◌else◌,
  Text, codes, text_eq, trim_space, [], ◌∷◌, ◌++◌,
}
use uagent_harness.Compaction.Record.{default_keep}

abbrev pub minimum : ℕ → ℕ → ℕ
minimum a b = if leb a b then a else b

abbrev pub maximum : ℕ → ℕ → ℕ
maximum a b = if leb a b then b else a

abbrev pub default_window : ℕ
default_window = 272000

abbrev pub baseline_tokens : ℕ
baseline_tokens = 12000

abbrev pub or_default_window : Option ℕ → ℕ
or_default_window (some window) = window
or_default_window none = default_window

-- `lookup` is none where there is no catalog, or the catalog does not know the model.
unfoldable pub context_window : Text → ℕ → (Text → Option ℕ) → ℕ
context_window model override lookup =
    if ltb 0 override then override else or_default_window (lookup model)

unfoldable pub auto_limit : ℕ → ℕ → ℕ
auto_limit window percent =
    if percent == 0 || window == 0 then 0 else window * minimum percent 100 / 100

unfoldable pub percent_left : ℕ → ℕ → ℕ
percent_left used window =
    let effective = window - baseline_tokens in
    let remaining = effective - (used - baseline_tokens) in
    if leb window baseline_tokens then 0 else (remaining * 100 + effective / 2) / effective

-- The settings that the limits, the caps and the prompt read.
pub record Settings : Type 0 where
  pub percent : ℕ
  pub token_limit : ℕ
  pub prompt : Text
  pub user_message_max_tokens : ℕ

unfoldable pub limit : Settings → ℕ → ℕ
limit s window =
    let auto = auto_limit window s.percent in
    if auto == 0 || s.token_limit == 0 then auto else minimum auto s.token_limit

-- `default` is the embedded prompt.
unfoldable pub summary_prompt : Text → Settings → Text → Text
summary_prompt default s focus =
    let prompt = if text_eq (trim_space s.prompt) [] then default else trim_space s.prompt in
    if text_eq (trim_space focus) []
    then prompt
    else prompt ++ (codes "\n\nThe user asked this summary to focus on:\n" ++ trim_space focus)

unfoldable pub kept_tokens : Settings → ℕ
kept_tokens s = if ltb 0 s.user_message_max_tokens then s.user_message_max_tokens else default_keep

abbrev pub remote_keep_tokens : ℕ
remote_keep_tokens = 64000

unfoldable pub remote_keep_for : Settings → ℕ → ℕ
remote_keep_for s window =
    if ltb 0 s.user_message_max_tokens
    then s.user_message_max_tokens
    else if window == 0
    then remote_keep_tokens
    else maximum (minimum remote_keep_tokens (window / 4)) 1

unfoldable pub keep_for : Settings → ℕ → ℕ
keep_for s window =
    if ltb 0 s.user_message_max_tokens || window == 0
    then kept_tokens s
    else maximum (minimum default_keep (window / 4)) 1

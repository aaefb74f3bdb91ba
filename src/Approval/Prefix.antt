-- ===== src/Approval/Prefix.antt =====
-- internal/approval/prefix.go: the prefix that "don't ask again" offers.
use uagent_harness.Prelude.{
  Bool, true, false, not, ◌&&◌, List, [], ◌∷◌, map, ltb, if◌then◌else◌, Text, codes, contains,
  join_words, texts_eq, length, take,
}

abbrev pub banned_prefixes : List Text
banned_prefixes = map codes (
    "/bin/bash" ∷ "/bin/bash -c" ∷ "/bin/bash -lc" ∷ "/bin/sh" ∷ "/bin/sh -c" ∷ "/bin/sh -lc"
    ∷ "/bin/zsh" ∷ "/bin/zsh -c" ∷ "/bin/zsh -lc" ∷ "Rscript" ∷ "bash" ∷ "bash -c" ∷ "bash -lc"
    ∷ "bun" ∷ "bun -e" ∷ "bun run" ∷ "dash" ∷ "dash -c" ∷ "deno" ∷ "deno eval" ∷ "env" ∷ "fish"
    ∷ "fish -c" ∷ "git" ∷ "julia" ∷ "julia -e" ∷ "ksh" ∷ "ksh -c" ∷ "lua" ∷ "lua -e" ∷ "node"
    ∷ "node -e" ∷ "nodejs" ∷ "nodejs -e" ∷ "npm run" ∷ "osascript" ∷ "perl" ∷ "perl -e" ∷ "php"
    ∷ "php -r" ∷ "pnpm run" ∷ "pwsh" ∷ "pwsh -c" ∷ "pwsh -Command" ∷ "py" ∷ "py -3" ∷ "pypy"
    ∷ "pypy3" ∷ "python" ∷ "python -" ∷ "python -c" ∷ "python3" ∷ "python3 -" ∷ "python3 -c" ∷ "rm"
    ∷ "ruby" ∷ "ruby -e" ∷ "sh" ∷ "sh -c" ∷ "sh -lc" ∷ "sudo" ∷ "yarn run" ∷ "zsh" ∷ "zsh -c"
    ∷ "zsh -lc" ∷ [])

unfoldable pub banned : List Text → Bool
banned prefix = contains banned_prefixes (join_words prefix)

unfoldable pub covers : List Text → List Text → Bool
covers prefix words =
    not (ltb (length words) (length prefix)) && texts_eq (take (length prefix) words) prefix

unfoldable pub covers_each : List Text → List (List Text) → Bool
covers_each prefix [] = true
covers_each prefix (words ∷ commands) = covers prefix words && covers_each prefix commands

unfoldable pub covers_all : List Text → List (List Text) → Bool
covers_all prefix [] = false
covers_all prefix (words ∷ commands) = covers_each prefix (words ∷ commands)

-- The whole command, when it is one simple command.
abbrev pub one_command : List (List Text) → List Text
one_command (words ∷ []) = if banned words then [] else words
one_command _ = []

unfoldable pub propose_prefix : List Text → List (List Text) → List Text
propose_prefix suggested commands =
    if ltb 0 (length suggested) && not (banned suggested) && covers_all suggested commands
    then suggested
    else one_command commands

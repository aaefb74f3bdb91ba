-- ===== src/Cmdparse/Shlex/Samples.antt =====
-- internal/cmdparse/shlex.go: runs on concrete texts.
use uagent_harness.Prelude.{◌≡◌, refl, true, false, List, [], ◌∷◌, map, Text, codes}
use uagent_harness.Cmdparse.Shlex.{
  found, split, join, quote, best, quote_loop, quoting_strategy, skip_blanks, skip_comment,
  split_loop, split_round, split_word, strategy_loop, write_chunk,
}
use uagent_harness.Cmdparse.Shlex.RoundTrip.{split-join}
use uagent_harness.Cmdparse.Shlex.Total.{split_total}

abbrev git_words : List Text
git_words = map codes ("git" ∷ "commit" ∷ "-m" ∷ "it's \"done\"" ∷ "" ∷ [])

splits_quotes :
    split (codes "a 'b c' \"d\\\"e\" # f") ≡ found (map codes ("a" ∷ "b c" ∷ "d\"e" ∷ []), true)
unfolding split split_loop split_round skip_blanks split_word skip_comment
splits_quotes = refl

open_quote : split (codes "a 'b") ≡ found (map codes ("a" ∷ []), false)
unfolding split split_loop split_round skip_blanks split_word
open_quote = refl

quotes_a_blank : quote (codes "b c") ≡ found (codes "'b c'")
unfolding quote quote_loop quoting_strategy strategy_loop write_chunk best
quotes_a_blank = refl

split-join_example : (s : Text) × (join git_words ≡ found s) × (split s ≡ found (git_words, true))
split-join_example = split-join git_words

split_total_example : (ws : List Text) × (well : _) × (split (codes "a \"b") ≡ found (ws, well))
split_total_example = split_total (codes "a \"b")

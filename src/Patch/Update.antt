-- ===== src/Patch/Update.antt =====
-- internal/patch/update.go: where the chunks of an update apply, and the file's text after them.
-- Texts are lists of code points.
pub mod Seek
pub mod Bounds
mod Samples
use uagent_harness.Prelude.{
  ℕ, zero, suc, ◌+◌, ◌-◌, Bool, true, false, not, ◌&&◌, ◌||◌, Option, none, some, List, [], ◌∷◌,
  ◌++◌, map, ◌==◌, ltb, leb, if◌then◌else◌, Text, codes, text_eq, length, take, drop, trim_space,
  trim_right, split_newlines,
}
use uagent_harness.Patch.Parse.{Chunk, last?, but_last}

-- How a file line is compared with a pattern line.
abbrev pub Matcher : Type 0
Matcher = Text → Text → Bool

-- normalize's table: typographic dashes, quotes and spaces as ASCII.
pub ascii_of : ℕ → ℕ
ascii_of c =
    if (leb 8208 c && leb c 8213) || c == 8722
    then b'-'
    else if leb 8216 c && leb c 8219
    then 39
    else if leb 8220 c && leb c 8223
    then 34
    else if c == 160 || (leb 8194 c && leb c 8202) || c == 8239 || c == 8287 || c == 12288
    then b' '
    else c

pub normalize : Text → Text
normalize s = map ascii_of (trim_space s)

-- Strictest first.
abbrev pub matchers : List Matcher
matchers =
    text_eq
    ∷ (λ a b. text_eq (trim_right a) (trim_right b))
    ∷ (λ a b. text_eq (trim_space a) (trim_space b))
    ∷ (λ a b. text_eq (normalize a) (normalize b))
    ∷ []

-- The pattern against the start of the lines; where the lines stop, the source would panic.
unfoldable pub match_at : Matcher → List Text → List Text → Bool
match_at same lines [] = true
match_at same [] (q ∷ pattern) = false
match_at same (l ∷ lines) (q ∷ pattern) =
    let rest = match_at same lines pattern in if not (same l q) then false else rest

-- The inner loop of `seek`: `n` positions from `i` on.
unfoldable pub seek_loop : Matcher → List Text → List Text → ℕ → ℕ → Option ℕ
seek_loop same lines pattern zero i = none
seek_loop same lines pattern (suc n) i =
    let rest = seek_loop same lines pattern n (i + 1) in
    if match_at same (take (length pattern) (drop i lines)) pattern then some i else rest

abbrev pub or_position : Option ℕ → Option ℕ → Option ℕ
or_position (some i) other = some i
or_position none other = other

-- The outer loop: positions `from` to the last at which the pattern fits, by each matcher.
unfoldable pub seek_by : List Matcher → List Text → List Text → ℕ → Option ℕ
seek_by [] lines pattern from = none
seek_by (same ∷ rest) lines pattern from =
    or_position (seek_loop same lines pattern (suc (length lines - length pattern) - from) from)
      (seek_by rest lines pattern from)

unfoldable pub seek : List Text → List Text → ℕ → Bool → Option ℕ
seek lines pattern start eof =
    if length pattern == 0
    then some start
    else if ltb (length lines) (length pattern)
    then none
    else seek_by matchers lines pattern (if eof then length lines - length pattern else start)

-- Replaces `count` lines at `start` with `lines`.
pub record Replacement : Type 0 where
  pub start : ℕ
  pub count : ℕ
  pub lines : List Text

-- What is not found: a context line, or the lines of a chunk.
pub data Failure : Type 0 where
  no_context : Text → Failure
  no_lines : List Text → Failure

pub data Result {ℓ} (A : Type ℓ) : Type ℓ where
  ok : A → Result A
  fail : Failure → Result A

infixl 5 ◌>>=◌
abbrev pub ◌>>=◌ {ℓ κ} : {A : Type ℓ} {B : Type κ} → Result A → (A → Result B) → Result B
ok a >>= f = f a
fail e >>= f = fail e

abbrev pub after_context : Text → Option ℕ → Result ℕ
after_context context none = fail (no_context context)
after_context context (some i) = ok (i + 1)

-- Where the search for a chunk's lines starts.
unfoldable pub context_at : List Text → ℕ → Chunk → Result ℕ
context_at lines at c =
    if c.has_context then after_context c.context (seek lines (c.context ∷ []) at false) else ok at

abbrev pub ends_empty : Option Text → Bool
ends_empty none = false
ends_empty (some l) = length l == 0

-- Where lines without old ones are put: at the end, before a last empty line.
unfoldable pub insert_at : List Text → ℕ
insert_at lines = if ends_empty (last? lines) then length lines - 1 else length lines

-- The lines without a last empty one.
unfoldable pub without_empty : List Text → List Text
without_empty lines = if ends_empty (last? lines) then but_last lines else lines

abbrev pub replaces : List Text → List Text → ℕ → Replacement × ℕ
replaces pattern new i =
    (record { start = i; count = length pattern; lines = new }, i + length pattern)

abbrev pub located : Chunk → List Text → List Text → Option ℕ → Result (Replacement × ℕ)
located c pattern new none = fail (no_lines c.old)
located c pattern new (some i) = ok (replaces pattern new i)

-- The second try, without the last empty line of the pattern.
unfoldable pub retry : List Text → ℕ → Chunk → Result (Replacement × ℕ)
retry lines at c =
    if ends_empty (last? c.old)
    then located c (but_last c.old) (without_empty c.new)
        (seek lines (but_last c.old) at c.end_of_file)
    else fail (no_lines c.old)

abbrev pub or_retry : Chunk → Option ℕ → Result (Replacement × ℕ) → Result (Replacement × ℕ)
or_retry c (some i) second = ok (replaces c.old c.new i)
or_retry c none second = second

-- The replacement of one chunk, and where the next search starts.
unfoldable pub replacement : List Text → ℕ → Chunk → Result (Replacement × ℕ)
replacement lines at c =
    if length c.old == 0
    then ok (record { start = insert_at lines; count = 0; lines = c.new }, at)
    else or_retry c (seek lines c.old at c.end_of_file) (retry lines at c)

unfoldable pub replacements_loop : List Text → ℕ → List Chunk → Result (List Replacement)
replacements_loop lines at [] = ok []
replacements_loop lines at (c ∷ chunks) = do
  from ← context_at lines at c
  p ← replacement lines from c
  rest ← replacements_loop lines p.1 chunks
  ok (p.0 ∷ rest)

-- slices.SortStableFunc by `start`
unfoldable pub insert_by_start : Replacement → List Replacement → List Replacement
insert_by_start r [] = r ∷ []
insert_by_start r (q ∷ reps) =
    let rest = insert_by_start r reps in if leb r.start q.start then r ∷ q ∷ reps else q ∷ rest

unfoldable pub sort_by_start : List Replacement → List Replacement
sort_by_start [] = []
sort_by_start (r ∷ reps) = insert_by_start r (sort_by_start reps)

unfoldable pub replacements : List Text → List Chunk → Result (List Replacement)
replacements lines chunks = do reps ← replacements_loop lines 0 chunks; ok (sort_by_start reps)

abbrev min : ℕ → ℕ → ℕ
min a b = if leb a b then a else b

unfoldable pub splice : Replacement → List Text → List Text
splice r lines =
    take r.start lines ++ (r.lines ++ drop (min (r.start + r.count) (length lines)) lines)

-- slices.Backward: the last replacement first.
unfoldable pub splice_all : List Replacement → List Text → List Text
splice_all [] lines = lines
splice_all (r ∷ reps) lines = splice r (splice_all reps lines)

-- The lines, an empty one at their end.
unfoldable pub end_newline : List Text → List Text
end_newline lines = if ends_empty (last? lines) then lines else lines ++ [] ∷ []

unfoldable pub join_newlines : List Text → Text
join_newlines [] = []
join_newlines (l ∷ []) = l
join_newlines (l ∷ k ∷ lines) = l ++ (10 ∷ join_newlines (k ∷ lines))

unfoldable pub updated : Text → List Chunk → Result Text
updated original chunks = do
  reps ← replacements (without_empty (split_newlines original)) chunks
  ok (join_newlines (end_newline (splice_all reps (without_empty (split_newlines original)))))

-- The error's text.
pub failure_text : Text → Failure → Text
failure_text path (no_context s) =
    codes "Failed to find context '" ++ (s ++ (codes "' in " ++ path))
failure_text path (no_lines ls) =
    codes "Failed to find expected lines in " ++ (path ++ (codes ":\n" ++ join_newlines ls))

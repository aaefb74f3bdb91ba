-- ===== src/Cmdparse/Shlex.antt =====
-- internal/cmdparse/shlex.go: splitting a text into words as POSIX shlex does, and quoting words
-- so that they split back. Texts are lists of bytes; an index into a text is the text that is left.
pub mod Chunks
pub mod Words
pub mod RoundTrip
pub mod Total
mod Samples
use mathlib.Core.List.{head?}
use uagent_harness.Prelude.{
  ℕ, zero, suc, ◌+◌, ◌≡◌, Bool, true, false, not, ◌&&◌, ◌||◌, Option, none, some, List, [], ◌∷◌,
  ◌++◌, map, ◌==◌, leb, if◌then◌else◌, Text, codes, length, take, drop, join_words,
}

-- `unterminated` is the source's ok = false with no word; `no_fuel` belongs to the model only.
pub data Scan {ℓ} (A : Type ℓ) : Type ℓ where
  found : A → Scan A
  unterminated : Scan A
  no_fuel : Scan A

infixl 5 ◌>>=◌
abbrev pub ◌>>=◌ {ℓ κ} : {A : Type ℓ} {B : Type κ} → Scan A → (A → Scan B) → Scan B
found a >>= f = f a
unterminated >>= f = unterminated
no_fuel >>= f = no_fuel

abbrev pub backslash : ℕ
backslash = 92

abbrev pub newline : ℕ
newline = 10

abbrev pub single_quote : ℕ
single_quote = 39

abbrev pub double_quote : ℕ
double_quote = 34

pub is_blank : ℕ → Bool
is_blank c = c == b' ' || c == 9 || c == newline

-- What a backslash and `n` stand for between double quotes.
pub in_double : ℕ → Text
in_double n =
    if n == b'$' || n == b'`' || n == double_quote || n == backslash
    then n ∷ []
    else if n == newline
    then []
    else backslash ∷ n ∷ []

-- The body of a double-quoted string is added to `b`; the rest follows the closing quote.
pub double_quoted : Text → Text → Scan (Text × Text)
unfolding in_double
double_quoted [] b = unterminated
double_quoted (c ∷ []) b = if c == double_quote then found (b, []) else unterminated
double_quoted (c ∷ n ∷ s) b =
    let escaped = double_quoted s (b ++ in_double n) in
    let plain = double_quoted (n ∷ s) (b ++ c ∷ []) in
    if c == double_quote then found (b, n ∷ s) else if c == backslash then escaped else plain

-- strings.IndexByte of a single quote: what stands before it and after it.
pub single_quoted : Text → Scan (Text × Text)
single_quoted [] = unterminated
single_quoted (c ∷ s) =
    if c == single_quote then found ([], s) else (single_quoted s >>= λ p. found (c ∷ p.0, p.1))

pub split_word : ℕ → Text → Text → Scan (Text × Text)
unfolding is_blank double_quoted single_quoted
split_word zero s b = no_fuel
split_word (suc f) [] b = found (b, [])
split_word (suc f) (c ∷ s) b =
    let in_doubles = double_quoted s b >>= λ p. split_word f p.1 p.0 in
    let in_singles = single_quoted s >>= λ p. split_word f p.1 (b ++ p.0) in
    let escaped : Scan (Text × Text) = elim s [
      | [] ↦ unterminated
      | n ∷ rest ↦ split_word f rest (if n == newline then b else b ++ n ∷ [])
    ] in
    let plain = split_word f s (b ++ c ∷ []) in
    if is_blank c
    then found (b, c ∷ s)
    else if c == double_quote
    then in_doubles
    else if c == single_quote
    then in_singles
    else if c == backslash
    then escaped
    else plain

pub skip_blanks : Text → Text
unfolding is_blank
skip_blanks [] = []
skip_blanks (c ∷ s) = if is_blank c then skip_blanks s else c ∷ s

-- The rest of a comment's line, its newline kept.
pub skip_comment : Text → Text
skip_comment [] = []
skip_comment (c ∷ s) = if c == newline then c ∷ s else skip_comment s

-- The words read, and whether the text ended well.
abbrev pub Words : Type 0
Words = List Text × Bool

-- After a word: its failure ends the loop with the words before it.
abbrev pub with_word : (Text → List Text → Scan Words) → List Text → Scan (Text × Text) → Scan Words
with_word next words (found (word, rest)) = next rest (words ++ word ∷ [])
with_word next words unterminated = found (words, false)
with_word next words no_fuel = no_fuel

-- What the loop does where no blank stands: skips a comment, ends, or reads a word.
pub split_round : (Text → List Text → Scan Words) → Text → List Text → Scan Words
split_round next [] words = found (words, true)
split_round next (c ∷ s) words =
    let comment = next (skip_comment (c ∷ s)) words in
    let word = with_word next words (split_word (suc (length (c ∷ s))) (c ∷ s) []) in
    if c == b'#' then comment else word

pub split_loop : ℕ → Text → List Text → Scan Words
split_loop zero s words = no_fuel
split_loop (suc f) s words = split_round (split_loop f) (skip_blanks s) words

pub split : Text → Scan Words
split s = split_loop (suc (length s)) s []

-- A set of the three quoting strategies (the bits of an int).
pub record Allowed : Type 0 where
  pub unquoted : Bool
  pub single : Bool
  pub double : Bool

pub data Strategy : Type 0 where
  bare in_singles in_doubles : Strategy

pub unquoted_char : ℕ → Bool
unquoted_char c =
    (leb b'a' c && leb c b'z')
    || (leb b'A' c && leb c b'Z')
    || (leb b'0' c && leb c b'9')
    || c == b'+'
    || c == b'-'
    || c == b'.'
    || c == b'/'
    || c == b':'
    || c == b'@'
    || c == b']'
    || c == b'_'

-- The strategies that cannot hold `c`.
pub char_denies : ℕ → Allowed
unfolding unquoted_char
char_denies c = record {
  unquoted = leb 128 c || not (unquoted_char c);
  single = c == single_quote || c == b'^' || c == backslash;
  double = c == b'`' || c == b'$' || c == b'!' || c == b'^';
}

-- ok &^ deny
abbrev pub without : Allowed → Allowed → Allowed
without ok deny = record {
  unquoted = ok.unquoted && not deny.unquoted;
  single = ok.single && not deny.single;
  double = ok.double && not deny.double;
}

abbrev pub is_empty : Allowed → Bool
is_empty a = not a.unquoted && not a.single && not a.double

pub best : Allowed → Strategy
best ok = if ok.unquoted then bare else if ok.single then in_singles else in_doubles

-- How many bytes the loop goes on for, and the strategies left.
pub strategy_loop : Allowed → Text → ℕ × Allowed
unfolding char_denies
strategy_loop ok [] = (0, ok)
strategy_loop ok (c ∷ w) =
    let cur = without ok (char_denies c) in
    let rest = strategy_loop cur w in if is_empty cur then (0, ok) else (suc rest.0, rest.1)

abbrev pub all_allowed : Allowed
all_allowed = record { unquoted = true; single = true; double = true }

abbrev pub single_only : Allowed
single_only = record { unquoted = false; single = true; double = false }

-- On the empty word, which the source never asks about, the length is 0.
pub quoting_strategy : Text → ℕ × Strategy
quoting_strategy [] = (0, in_doubles)
quoting_strategy (c ∷ w) =
    let caret = strategy_loop single_only w in
    let other = strategy_loop all_allowed (c ∷ w) in
    if c == b'^' then (suc caret.0, best caret.1) else (other.0, best other.1)

pub escape_double : Text → Text
escape_double [] = []
escape_double (c ∷ s) =
    (if c == b'$' || c == b'`' || c == double_quote || c == backslash
      then backslash ∷ c ∷ []
      else c ∷ [])
    ++ escape_double s

pub write_chunk : Strategy → Text → Text
unfolding escape_double
write_chunk bare chunk = chunk
write_chunk in_singles chunk = single_quote ∷ (chunk ++ single_quote ∷ [])
write_chunk in_doubles chunk = double_quote ∷ (escape_double chunk ++ double_quote ∷ [])

-- The loop of `quote`, one chunk a round.
pub quote_loop : ℕ → Text → Scan Text
quote_loop f [] = found []
quote_loop zero (c ∷ w) = no_fuel
quote_loop (suc f) (c ∷ w) =
    let (n, strategy) = quoting_strategy (c ∷ w) in
    quote_loop f (drop n (c ∷ w)) >>= λ rest. found (write_chunk strategy (take n (c ∷ w)) ++ rest)

pub quote : Text → Scan Text
quote [] = found (single_quote ∷ single_quote ∷ [])
quote (c ∷ w) = quote_loop (length (c ∷ w)) (c ∷ w)

pub quote_all : List Text → Scan (List Text)
quote_all [] = found []
quote_all (w ∷ ws) = quote w >>= λ q. quote_all ws >>= λ qs. found (q ∷ qs)

pub join : List Text → Scan Text
join words = quote_all words >>= λ qs. found (join_words qs)

-- ===== src/Cmdparse/Shlex/Total.antt =====
-- internal/cmdparse/shlex.go: `split` always ends, with the fuel that its length gives.
use uagent_harness.Prelude.{
  sym, ◌∙◌, ℕ, zero, suc, ◌≤◌, ◌<◌, ◌≡◌, refl, Bool, true, false, List, [], ◌∷◌, ◌++◌, arith, ◌==◌,
  Text, length, Bool-cases, inl, inr, if◌then◌else◌,
}
use uagent_harness.Cmdparse.Shlex.{
  Scan, found, unterminated, no_fuel, ◌>>=◌, is_blank, double_quoted, single_quoted, in_double,
  split_word, split, split_loop, split_round, skip_blanks, skip_comment, with_word, Words,
  single_quote, double_quote, backslash, newline,
}

-- The reader ends, and when it reads something at most `n` bytes are left.
abbrev Leaves : ℕ → Scan (Text × Text) → Type 0
Leaves n (found p) = length p.1 ≤ n
Leaves n unterminated = Unit
Leaves n no_fuel = ⊥

Leaves-if :
    (n : ℕ) (b : Bool) (x y : Scan (Text × Text))
    → Leaves n x
    → Leaves n y
    → Leaves n (if b then x else y)
Leaves-if n true x y hx hy = hx
Leaves-if n false x y hx hy = hy

Leaves-le : (m n : ℕ) (r : Scan (Text × Text)) → m ≤ n → Leaves m r → Leaves n r
Leaves-le m n (found p) h l = omega arith
Leaves-le m n unterminated h l = tt
Leaves-le m n no_fuel h l = l

Leaves-bind :
    (m n : ℕ) (r : Scan (Text × Text)) (f : Text × Text → Scan (Text × Text))
    → Leaves m r
    → ((p : Text × Text) → length p.1 ≤ m → Leaves n (f p))
    → Leaves n (r >>= f)
Leaves-bind m n (found p) f l h = h p l
Leaves-bind m n unterminated f l h = tt
Leaves-bind m n no_fuel f l h = l

double_quoted-Leaves : (s b : Text) → Leaves (length s) (double_quoted s b)
unfolding double_quoted
double_quoted-Leaves [] b = tt
double_quoted-Leaves (c ∷ []) b = Leaves-if 1 (c == double_quote) _ _ (omega arith) tt
double_quoted-Leaves (c ∷ n ∷ s) b = Leaves-if _ (c == double_quote) _ _ (omega arith) (
    Leaves-if _ (c == backslash) _ _
      (Leaves-le (length s) _ _ (omega arith) (double_quoted-Leaves s (b ++ in_double n)))
      (Leaves-le (length (n ∷ s)) _ _ (omega arith) (double_quoted-Leaves (n ∷ s) (b ++ c ∷ []))))

single_quoted-Leaves : (s : Text) → Leaves (length s) (single_quoted s)
unfolding single_quoted
single_quoted-Leaves [] = tt
single_quoted-Leaves (c ∷ s) =
    Leaves-if _ (c == single_quote) _ _ (omega arith)
      (Leaves-bind (length s) _ (single_quoted s) _ (single_quoted-Leaves s) (λ p h. omega arith))

-- A byte that starts or goes on with a word is taken, whatever it is.
split_word_step :
    (f c : ℕ) (s b : Text)
    → is_blank c ≡ false
    → ((t b' : Text) → length t ≤ length s → Leaves (length s) (split_word f t b'))
    → Leaves (length s) (split_word (suc f) (c ∷ s) b)
unfolding split_word
split_word_step f c [] b e ih = rw e (
    Leaves-if 0 (c == double_quote) _ _ tt (
      Leaves-if 0 (c == single_quote) _ _ tt
        (Leaves-if 0 (c == backslash) _ _ tt (ih [] (b ++ c ∷ []) (omega arith)))))
split_word_step f c (n ∷ s) b e ih = rw e (
    Leaves-if _ (c == double_quote) _ _
      (Leaves-bind _ _ (double_quoted (n ∷ s) b) _ (double_quoted-Leaves (n ∷ s) b)
        (λ p l. ih p.1 p.0 l))
      (Leaves-if _ (c == single_quote) _ _
        (Leaves-bind _ _ (single_quoted (n ∷ s)) _ (single_quoted-Leaves (n ∷ s))
          (λ p l. ih p.1 (b ++ p.0) l))
        (Leaves-if _ (c == backslash) _ _ (ih s _ (omega arith))
          (ih (n ∷ s) (b ++ c ∷ []) (omega arith)))))

split_word-Leaves : (f : ℕ) (s b : Text) → length s < f → Leaves (length s) (split_word f s b)
split_word-Leaves zero s b h = absurd (omega arith)
split_word-Leaves (suc f) [] b h = unfold split_word in omega arith
split_word-Leaves (suc f) (c ∷ s) b h = elim (Bool-cases (is_blank c)) [
  | inl e ↦ unfold split_word in rw e (omega arith)
  | inr e ↦ Leaves-le (length s) _ _ (omega arith) (
      split_word_step f c s b e
        (λ t b' l. Leaves-le (length t) _ _ l (split_word-Leaves f t b' (omega arith))))
]

-- A word read where no blank stands takes at least one byte.
split_word_progress :
    (c : ℕ) (s : Text)
    → is_blank c ≡ false
    → Leaves (length s) (split_word (suc (length (c ∷ s))) (c ∷ s) [])
split_word_progress c s e =
    split_word_step (length (c ∷ s)) c s [] e
      (λ t b' l. Leaves-le (length t) _ _ l (split_word-Leaves (length (c ∷ s)) t b' (omega arith)))

abbrev Ends : Scan Words → Type 0
Ends (found p) = Unit
Ends unterminated = ⊥
Ends no_fuel = ⊥

length-skip_blanks : (s : Text) → length (skip_blanks s) ≤ length s
unfolding skip_blanks
length-skip_blanks [] = omega arith
length-skip_blanks (c ∷ s) = ground (arith, length-skip_blanks s)

length-skip_comment : (s : Text) → length (skip_comment s) ≤ length s
unfolding skip_comment
length-skip_comment [] = omega arith
length-skip_comment (c ∷ s) = ground (arith, length-skip_comment s)

skip_blanks-blank : (c : ℕ) (s : Text) → is_blank c ≡ true → skip_blanks (c ∷ s) ≡ skip_blanks s
unfolding skip_blanks
skip_blanks-blank c s h = rw h

skip_blanks-other : (c : ℕ) (s : Text) → is_blank c ≡ false → skip_blanks (c ∷ s) ≡ c ∷ s
unfolding skip_blanks
skip_blanks-other c s h = rw h

-- After the blanks the text is empty or begins with another byte.
skip_blanks-head : (s : Text) (c : ℕ) (t : Text) → skip_blanks s ≡ c ∷ t → is_blank c ≡ false
skip_blanks-head [] c t e = unfold skip_blanks in cc e
skip_blanks-head (a ∷ s) c t e = elim (Bool-cases (is_blank a)) [
  | inl h ↦ skip_blanks-head s c t (sym (skip_blanks-blank a s h) ∙ e)
  | inr h ↦ let d : a ≡ c = cc (skip_blanks-other a s h) in rw (← d) h
]

-- Skipping a comment takes its first byte at least.
skip_comment_shorter :
    (c : ℕ) (s : Text) → (c == b'#') ≡ true → length (skip_comment (c ∷ s)) ≤ length s
unfolding skip_comment
skip_comment_shorter c s h =
    let e : (c == newline) ≡ false = ground arith in rw e (length-skip_comment s)

with_word-Ends :
    (n : ℕ) (next : Text → List Text → Scan Words) (words : List Text) (r : Scan (Text × Text))
    → ((t : Text) (ws : List Text) → length t ≤ n → Ends (next t ws))
    → Leaves n r
    → Ends (with_word next words r)
with_word-Ends n next words (found p) h l = h p.1 (words ++ p.0 ∷ []) l
with_word-Ends n next words unterminated h l = tt
with_word-Ends n next words no_fuel h l = l

split_round-Ends :
    (next : Text → List Text → Scan Words) (c : ℕ) (s : Text) (words : List Text)
    → is_blank c ≡ false
    → ((t : Text) (ws : List Text) → length t ≤ length s → Ends (next t ws))
    → Ends (split_round next (c ∷ s) words)
unfolding split_round
split_round-Ends next c s words e h = elim (Bool-cases (c == b'#')) [
  | inl k ↦ rw k (h (skip_comment (c ∷ s)) words (skip_comment_shorter c s k))
  | inr k ↦ rw k (
      with_word-Ends (length s) next words (split_word (suc (length (c ∷ s))) (c ∷ s) []) h
        (split_word_progress c s e))
]

split_loop-Ends :
    (f : ℕ) (s : Text) (words : List Text) → length s < f → Ends (split_loop f s words)
unfolding split_loop
split_loop-Ends zero s words h = absurd (omega arith)
split_loop-Ends (suc f) s words h =
    after (skip_blanks s) refl (length-skip_blanks s) (λ t ws l. split_loop-Ends f t ws l)
  where
    after :
        (t : Text)
        → skip_blanks s ≡ t
        → length t ≤ length s
        → ((t : Text) (ws : List Text) → length t < f → Ends (split_loop f t ws))
        → Ends (split_round (split_loop f) t words)
    after [] e l ih = unfold split_round in tt
    after (c ∷ t) e l ih =
        split_round-Ends (split_loop f) c t words (skip_blanks-head s c t e)
          (λ u ws k. ih u ws (omega arith))

-- Every text is split within the fuel that its length gives: into words, with the mark that says
-- whether the text ended well.
pub split_total : (s : Text) → (ws : List Text) × (well : Bool) × (split s ≡ found (ws, well))
unfolding split
split_total s = result (split_loop (suc (length s)) s []) (split_loop-Ends _ s [] (omega arith))
  where
    result : (r : Scan Words) → Ends r → (ws : List Text) × (well : Bool) × (r ≡ found (ws, well))
    result (found (ws, well)) h = (ws, well, refl)
    result unterminated h = absurd h
    result no_fuel h = absurd h

-- ===== src/Cmdparse/Shlex/Words.antt =====
-- internal/cmdparse/shlex.go: a quoted word is read back as the word, and never looks like a blank
-- or a comment.
use uagent_harness.Prelude.{
  ℕ, zero, suc, ◌≤◌, ◌<◌, ◌≡◌, refl, true, false, [], ◌∷◌, ◌++◌, arith, ◌∙◌, ◌==◌, Text, length,
  take, drop, append-nil, append_assoc, take-append-drop, length-drop, subst,
}
use uagent_harness.Cmdparse.Shlex.{
  Scan, found, unterminated, no_fuel, ◌>>=◌, single_quote, is_blank, unquoted_char, Strategy, bare,
  in_singles, in_doubles, quoting_strategy, write_chunk, quote_loop, quote,
}
use uagent_harness.Cmdparse.Shlex.Chunks.{
  Fits, GoesOn, split_word-write_chunk, quoting_strategy-Fits, quoting_strategy_pos,
}

pub found-bind {ℓ κ} :
    {A : Type ℓ} {B : Type κ} (m : Scan A) (f : A → Scan B) {b : B}
    → (m >>= f) ≡ found b
    → (a : A) × (m ≡ found a) × (f a ≡ found b)
found-bind (found a) f h = (a, refl, h)
found-bind unterminated f h = cc
found-bind no_fuel f h = cc

pub found-injective {ℓ} : {A : Type ℓ} (a b : A) → found a ≡ found b → a ≡ b
found-injective a b h = cc

-- Quoting has fuel enough: each round takes at least one byte.
quote_loop_total : (n : ℕ) (w : Text) → length w ≤ n → (q : Text) × (quote_loop n w ≡ found q)
unfolding quote_loop
quote_loop_total n [] h = ([], refl)
quote_loop_total zero (c ∷ w) h = absurd (omega arith)
quote_loop_total (suc n) (c ∷ w) h =
    let k = (quoting_strategy (c ∷ w)).0 in
    let (rest, e) =
      quote_loop_total n (drop k (c ∷ w))
        (omega (arith, length-drop k (c ∷ w), quoting_strategy_pos c w)) in
    (write_chunk (quoting_strategy (c ∷ w)).1 (take k (c ∷ w)) ++ rest, rw e)

pub quote_total : (w : Text) → (q : Text) × (quote w ≡ found q)
unfolding quote
quote_total [] = (single_quote ∷ single_quote ∷ [], refl)
quote_total (c ∷ w) = quote_loop_total (length (c ∷ w)) (c ∷ w) (omega arith)

GoesOn-trans :
    (f : ℕ) (s t u b b' b'' : Text)
    → GoesOn f s b b' t
    → ((g : ℕ) → length t < g → GoesOn g t b' b'' u)
    → GoesOn f s b b'' u
GoesOn-trans f s t u b b' b'' (g, l, e) next = let (k, m, d) = next g l in (k, m, e ∙ d)

one_round :
    (strategy : Strategy) (chunk more tail rest b : Text) (f : ℕ)
    → Fits strategy chunk
    → ((g : ℕ)
        → length (tail ++ rest) < g
        → GoesOn g (tail ++ rest) (b ++ chunk) ((b ++ chunk) ++ more) rest)
    → length ((write_chunk strategy chunk ++ tail) ++ rest) < f
    → GoesOn f ((write_chunk strategy chunk ++ tail) ++ rest) b (b ++ (chunk ++ more)) rest
one_round strategy chunk more tail rest b f fits next k =
    rw (append_assoc (write_chunk strategy chunk) tail rest, ← append_assoc b chunk more)
      (GoesOn-trans f _ (tail ++ rest) rest b (b ++ chunk) ((b ++ chunk) ++ more)
        (split_word-write_chunk strategy f chunk (tail ++ rest) b fits
          (rw (append_assoc (write_chunk strategy chunk) tail rest) at k))
        next)

-- What the rounds of `quote` write is read back as the word.
split_word-quote_loop :
    (n : ℕ) (w q rest b : Text) (f : ℕ)
    → quote_loop n w ≡ found q
    → length (q ++ rest) < f
    → GoesOn f (q ++ rest) b (b ++ w) rest
unfolding quote_loop
split_word-quote_loop n [] q rest b f h k =
    let e = found-injective [] q h in rw (← e) (f, rw (← e) at k, rw append-nil)
split_word-quote_loop zero (c ∷ w) q rest b f h k = cc
split_word-quote_loop (suc n) (c ∷ w) q rest b f h k =
    let m = (quoting_strategy (c ∷ w)).0 in
    let strategy = (quoting_strategy (c ∷ w)).1 in
    let chunk : Text = take m (c ∷ w) in
    let more : Text = drop m (c ∷ w) in
    let (tail, e, d) =
      found-bind (quote_loop n more) (λ t. found (write_chunk strategy chunk ++ t)) h in
    subst (λ u. length (q ++ rest) < f → GoesOn f (q ++ rest) b (b ++ u) rest)
      (take-append-drop m (c ∷ w))
      (subst (λ p. length (p ++ rest) < f → GoesOn f (p ++ rest) b (b ++ (chunk ++ more)) rest)
        (found-injective _ _ d)
        (one_round strategy chunk more tail rest b f (quoting_strategy-Fits (c ∷ w))
          (λ g. split_word-quote_loop n more tail rest (b ++ chunk) g e)))
      k

pub split_word-quote :
    (w q rest : Text) (f : ℕ)
    → quote w ≡ found q
    → length (q ++ rest) < f
    → GoesOn f (q ++ rest) [] w rest
unfolding quote write_chunk
split_word-quote [] q rest f h k =
    subst (λ p. length (p ++ rest) < f → GoesOn f (p ++ rest) [] [] rest) (found-injective _ _ h)
      (split_word-write_chunk in_singles f [] rest [] tt) k
split_word-quote (c ∷ w) q rest f h k =
    split_word-quote_loop (length (c ∷ w)) (c ∷ w) q rest [] f h k

-- A text that begins a word: no blank, no comment.
abbrev pub OpensWord : Text → Type 0
OpensWord [] = ⊥
OpensWord (c ∷ s) = (is_blank c ≡ false) × ((c == b'#') ≡ false)

unquoted_char-OpensWord : (c : ℕ) (s : Text) → unquoted_char c ≡ true → OpensWord (c ∷ s)
unfolding unquoted_char is_blank
unquoted_char-OpensWord c s h = ground arith

write_chunk-OpensWord :
    (strategy : Strategy) (chunk tail : Text)
    → 0 < length chunk
    → Fits strategy chunk
    → OpensWord (write_chunk strategy chunk ++ tail)
unfolding write_chunk
write_chunk-OpensWord bare [] tail l h = absurd (omega arith)
write_chunk-OpensWord bare (c ∷ chunk) tail l h = unquoted_char-OpensWord c (chunk ++ tail) h.0
write_chunk-OpensWord in_singles chunk tail l h = unfold is_blank in (refl, refl)
write_chunk-OpensWord in_doubles chunk tail l h = unfold is_blank in (refl, refl)

take_pos : (n c : ℕ) (w : Text) → 0 < n → 0 < length (take n (c ∷ w))
take_pos zero c w h = absurd (omega arith)
take_pos (suc n) c w h = omega arith

pub quote-OpensWord : (w q : Text) → quote w ≡ found q → OpensWord q
unfolding quote quote_loop
quote-OpensWord [] q h = subst OpensWord (found-injective _ _ h) (unfold is_blank in (refl, refl))
quote-OpensWord (c ∷ w) q h =
    let (m, strategy) = quoting_strategy (c ∷ w) in
    let (tail, _, d) =
      found-bind (quote_loop (length w) (drop m (c ∷ w)))
        (λ t. found (write_chunk strategy (take m (c ∷ w)) ++ t)) h in
    subst OpensWord (found-injective _ _ d) (
      write_chunk-OpensWord strategy (take m (c ∷ w)) tail
        (take_pos m c w (quoting_strategy_pos c w)) (quoting_strategy-Fits (c ∷ w)))

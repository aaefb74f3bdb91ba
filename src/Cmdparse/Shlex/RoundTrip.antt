-- ===== src/Cmdparse/Shlex/RoundTrip.antt =====
-- internal/cmdparse/shlex.go: the words that `join` writes are the words that `split` reads.
use uagent_harness.Prelude.{
  ℕ, zero, suc, ◌<◌, ◌≡◌, refl, true, List, [], ◌∷◌, ◌++◌, arith, ◌∙◌, subst, Text, length,
  append-nil, append_assoc, length-append, join_words,
}
use uagent_harness.Cmdparse.Shlex.{
  found, is_blank, split_word, quote, quote_all, join, split, split_loop, skip_blanks, split_round,
}
use uagent_harness.Cmdparse.Shlex.Words.{
  found-bind, found-injective, quote_total, split_word-quote, OpensWord, quote-OpensWord,
}

quote_all_total : (ws : List Text) → (qs : List Text) × (quote_all ws ≡ found qs)
unfolding quote_all
quote_all_total [] = ([], refl)
quote_all_total (w ∷ ws) =
    let (q, e) = quote_total w in let (qs, d) = quote_all_total ws in (q ∷ qs, rw (e, d))

-- Where a word ends: at a blank, or at the end of the text.
abbrev Stops : Text → Type 0
Stops [] = Unit
Stops (c ∷ s) = is_blank c ≡ true

split_word-Stops :
    (g : ℕ) (rest w : Text) → length rest < g → Stops rest → split_word g rest w ≡ found (w, rest)
unfolding split_word
split_word-Stops zero rest w l h = absurd (omega arith)
split_word-Stops (suc g) [] w l h = refl
split_word-Stops (suc g) (c ∷ rest) w l h = rw h

-- A quoted word is read as the word, up to the blank or the end that follows it.
split_word-quote-Stops :
    (w q rest : Text)
    → quote w ≡ found q
    → Stops rest
    → split_word (suc (length (q ++ rest))) (q ++ rest) [] ≡ found (w, rest)
split_word-quote-Stops w q rest e h =
    let (g, l, d) = split_word-quote w q rest (suc (length (q ++ rest))) e (omega arith) in
    d ∙ split_word-Stops g rest w l h

skip_blanks-OpensWord : (s : Text) → OpensWord s → skip_blanks s ≡ s
unfolding skip_blanks
skip_blanks-OpensWord [] h = refl
skip_blanks-OpensWord (c ∷ s) h = rw h.0

-- One round of the loop, at a text that begins a word.
split_loop-word :
    (f : ℕ) (s w rest : Text) (words : List Text)
    → OpensWord s
    → split_word (suc (length s)) s [] ≡ found (w, rest)
    → split_loop (suc f) s words ≡ split_loop f rest (words ++ w ∷ [])
unfolding split_loop
split_loop-word f [] w rest words o e = absurd o
split_loop-word f (c ∷ s) w rest words o e =
    rw (skip_blanks-OpensWord (c ∷ s) o) (unfold split_round in rw (o.1, e))

split_loop-blank :
    (f : ℕ) (s : Text) (words : List Text) → split_loop f (b' ' ∷ s) words ≡ split_loop f s words
unfolding split_loop
split_loop-blank zero s words = refl
split_loop-blank (suc f) s words = unfold skip_blanks is_blank in refl

OpensWord-append : (q rest : Text) → OpensWord q → OpensWord (q ++ rest)
OpensWord-append [] rest h = absurd h
OpensWord-append (c ∷ q) rest h = h

-- A quoted word that stands before a stop is one round of the loop.
split_loop-quote :
    (f : ℕ) (w q rest : Text) (words : List Text)
    → quote w ≡ found q
    → Stops rest
    → split_loop (suc f) (q ++ rest) words ≡ split_loop f rest (words ++ w ∷ [])
split_loop-quote f w q rest words e h =
    split_loop-word f (q ++ rest) w rest words (OpensWord-append q rest (quote-OpensWord w q e))
      (split_word-quote-Stops w q rest e h)

split_loop-nil : (f : ℕ) (words : List Text) → 0 < f → split_loop f [] words ≡ found (words, true)
unfolding split_loop skip_blanks split_round
split_loop-nil zero words h = absurd (omega arith)
split_loop-nil (suc f) words h = refl

OpensWord-positive : (q : Text) → OpensWord q → 0 < length q
OpensWord-positive [] h = absurd h
OpensWord-positive (c ∷ q) h = omega arith

-- What the loop is left with after the word: the quoted words that follow, and what they add.
abbrev Reads : List Text → List Text → Type 0
Reads ws qs =
    (f : ℕ) (words : List Text)
    → length (join_words qs) < f
    → split_loop f (join_words qs) words ≡ found (words ++ ws, true)

Reads-cons :
    (w q : Text) (ws qs : List Text)
    → quote w ≡ found q
    → quote_all ws ≡ found qs
    → Reads ws qs
    → Reads (w ∷ ws) (q ∷ qs)
unfolding join_words
Reads-cons w q ws qs e d ih zero words k = absurd (omega arith)
Reads-cons w q ws [] e d ih (suc f) words k =
    subst (λ p. split_loop (suc f) p words ≡ split_loop f [] (words ++ w ∷ [])) (append-nil q)
      (split_loop-quote f w q [] words e tt)
    ∙ ih f (words ++ w ∷ []) (omega (arith, OpensWord-positive q (quote-OpensWord w q e)))
    ∙ rw append_assoc
Reads-cons w q ws (p ∷ qs) e d ih (suc f) words k =
    split_loop-quote f w q (b' ' ∷ join_words (p ∷ qs)) words e (unfold is_blank in refl)
    ∙ split_loop-blank f (join_words (p ∷ qs)) (words ++ w ∷ [])
    ∙ ih f (words ++ w ∷ []) (omega (arith, length-append q (b' ' ∷ join_words (p ∷ qs))))
    ∙ rw append_assoc

split_loop-join_words : (ws qs : List Text) → quote_all ws ≡ found qs → Reads ws qs
unfolding quote_all
split_loop-join_words [] qs h =
    subst (Reads []) (found-injective _ _ h)
      (unfold join_words in λ f words k. split_loop-nil f words k ∙ rw append-nil)
split_loop-join_words (w ∷ ws) qs h =
    let (q, e, d) = found-bind (quote w) _ h in
    let (ps, e', d') = found-bind (quote_all ws) _ d in
    subst (Reads (w ∷ ws)) (found-injective _ _ d')
      (Reads-cons w q ws ps e e' (split_loop-join_words ws ps e'))

-- Any list of words can be joined, and splitting the joined text gives the same words back, whole
-- and well ended.
pub split-join : (ws : List Text) → (s : Text) × (join ws ≡ found s) × (split s ≡ found (ws, true))
unfolding join split
split-join ws =
    let (qs, e) = quote_all_total ws in
    (
      join_words qs,
      rw e,
      split_loop-join_words ws qs e (suc (length (join_words qs))) [] (omega arith),
    )

-- ===== src/Cmdparse/Shlex/Chunks.antt =====
-- internal/cmdparse/shlex.go: a chunk written by one quoting strategy is read back whole.
use mathlib.Core.List.{append-nil, append_assoc}
use uagent_harness.Prelude.{
  ℕ, zero, suc, ◌<◌, ◌≡◌, refl, Bool, true, false, [], ◌∷◌, ◌++◌, arith, ◌||◌, ◌==◌, ap, ◌∙◌,
  &&_iff, Text, length, take, length-append, All, Bool-cases, inl, inr,
}
use uagent_harness.Cmdparse.Shlex.{
  found, backslash, single_quote, double_quote, double_quoted, single_quoted, split_word,
  unquoted_char, Strategy, bare, in_singles, in_doubles, Allowed, without, is_empty, all_allowed,
  single_only, char_denies, best, strategy_loop, quoting_strategy, escape_double, write_chunk,
}

-- What a strategy asks of the bytes that it writes.
abbrev pub Fits : Strategy → Text → Type 0
Fits bare chunk = All (λ c. unquoted_char c ≡ true) chunk
Fits in_singles chunk = All (λ c. (c == single_quote) ≡ false) chunk
Fits in_doubles chunk = Unit

double_quoted_plain :
    (c : ℕ) (t b : Text)
    → (c == double_quote) ≡ false
    → (c == backslash) ≡ false
    → double_quoted (c ∷ t) b ≡ double_quoted t (b ++ c ∷ [])
unfolding double_quoted
double_quoted_plain c [] b hq hb = rw hq
double_quoted_plain c (n ∷ t) b hq hb = rw (hq, hb)

double_quoted_special :
    (c : ℕ) (t b : Text)
    → (c == b'$' || c == b'`' || c == double_quote || c == backslash) ≡ true
    → double_quoted (backslash ∷ c ∷ t) b ≡ double_quoted t (b ++ c ∷ [])
unfolding double_quoted
double_quoted_special c t b h = rw h

double_quoted-escape :
    (chunk rest b : Text)
    → double_quoted (escape_double chunk ++ (double_quote ∷ rest)) b ≡ found (b ++ chunk, rest)
unfolding escape_double
double_quoted-escape [] [] b = unfold double_quoted in rw append-nil
double_quoted-escape [] (_ ∷ rest) b = unfold double_quoted in rw append-nil
double_quoted-escape (c ∷ chunk) rest b =
    elim (Bool-cases (c == b'$' || c == b'`' || c == double_quote || c == backslash)) [
      | inl h ↦ rw h (
          double_quoted_special c _ b h
          ∙ double_quoted-escape chunk rest (b ++ c ∷ [])
          ∙ rw append_assoc)
      | inr h ↦ rw h (
          double_quoted_plain c _ b (ground arith) (ground arith)
          ∙ double_quoted-escape chunk rest (b ++ c ∷ [])
          ∙ rw append_assoc)
    ]

single_quoted-chunk :
    (chunk rest : Text)
    → Fits in_singles chunk
    → single_quoted (chunk ++ (single_quote ∷ rest)) ≡ found (chunk, rest)
unfolding single_quoted
single_quoted-chunk [] rest h = refl
single_quoted-chunk (c ∷ chunk) rest h = ground (arith, single_quoted-chunk chunk rest)

-- Enough fuel is left for the rest, wherever reading goes on from.
abbrev pub GoesOn : ℕ → Text → Text → Text → Text → Type 0
GoesOn f s b b' rest = (g : ℕ) × (length rest < g) × (split_word f s b ≡ split_word g rest b')

split_word_plain :
    (f c : ℕ) (s b : Text)
    → unquoted_char c ≡ true
    → split_word (suc f) (c ∷ s) b ≡ split_word f s (b ++ c ∷ [])
unfolding split_word unquoted_char
split_word_plain f c s b h = ground arith

split_word-bare :
    (f : ℕ) (chunk rest b : Text)
    → Fits bare chunk
    → length (chunk ++ rest) < f
    → GoesOn f (chunk ++ rest) b (b ++ chunk) rest
split_word-bare f [] rest b h k = (f, k, rw append-nil)
split_word-bare zero (c ∷ chunk) rest b h k = absurd (omega arith)
split_word-bare (suc f) (c ∷ chunk) rest b h k =
    let (g, l, e) = split_word-bare f chunk rest (b ++ c ∷ []) h.1 (omega arith) in
    (g, l, split_word_plain f c (chunk ++ rest) b h.0 ∙ e ∙ rw append_assoc)

split_word_single :
    (f : ℕ) (chunk rest b : Text)
    → Fits in_singles chunk
    → split_word (suc f) (single_quote ∷ (chunk ++ (single_quote ∷ rest))) b
      ≡ split_word f rest (b ++ chunk)
unfolding split_word
split_word_single f chunk rest b h = rw (single_quoted-chunk chunk rest h)

split_word_double :
    (f : ℕ) (chunk rest b : Text)
    → split_word (suc f) (double_quote ∷ (escape_double chunk ++ (double_quote ∷ rest))) b
      ≡ split_word f rest (b ++ chunk)
unfolding split_word
split_word_double f chunk rest b = rw (double_quoted-escape chunk rest b)

-- A chunk that a strategy may write is read back as it was, and reading goes on after it.
pub split_word-write_chunk :
    (strategy : Strategy) (f : ℕ) (chunk rest b : Text)
    → Fits strategy chunk
    → length (write_chunk strategy chunk ++ rest) < f
    → GoesOn f (write_chunk strategy chunk ++ rest) b (b ++ chunk) rest
unfolding write_chunk
split_word-write_chunk bare f chunk rest b h k = split_word-bare f chunk rest b h k
split_word-write_chunk in_singles zero chunk rest b h k = absurd (omega arith)
split_word-write_chunk in_singles (suc f) chunk rest b h k = (
  f,
  omega (
    arith,
    ap length (append_assoc chunk (single_quote ∷ []) rest),
    length-append chunk (single_quote ∷ rest),
  ),
  rw append_assoc (split_word_single f chunk rest b h),
)
split_word-write_chunk in_doubles zero chunk rest b h k = absurd (omega arith)
split_word-write_chunk in_doubles (suc f) chunk rest b h k = (
  f,
  omega (
    arith,
    ap length (append_assoc (escape_double chunk) (double_quote ∷ []) rest),
    length-append (escape_double chunk) (double_quote ∷ rest),
  ),
  rw append_assoc (split_word_double f chunk rest b),
)

-- What the loop has already read when it stands at a byte: all of it fits the strategies left.
abbrev FitsAll : Allowed → Text → Type 0
FitsAll ok chunk =
    (ok.unquoted ≡ true → Fits bare chunk) × (ok.single ≡ true → Fits in_singles chunk)

-- No strategy comes back once a byte has denied it.
strategy_loop_shrinks :
    (ok : Allowed) (w : Text)
    → ((strategy_loop ok w).1.unquoted ≡ true → ok.unquoted ≡ true)
      × ((strategy_loop ok w).1.single ≡ true → ok.single ≡ true)
unfolding strategy_loop
strategy_loop_shrinks ok [] = (λ h. h, λ h. h)
strategy_loop_shrinks ok (c ∷ w) =
    let (u, s) = strategy_loop_shrinks (without ok (char_denies c)) w in
    elim (Bool-cases (is_empty (without ok (char_denies c)))) [
      | inl e ↦ rw e (λ h. h, λ h. h)
      | inr e ↦
          rw e (λ h. ((&&_iff ok.unquoted _).0 (u h)).0, λ h. ((&&_iff ok.single _).0 (s h)).0)
    ]

without-unquoted :
    (ok : Allowed) (c : ℕ) → (without ok (char_denies c)).unquoted ≡ true → unquoted_char c ≡ true
unfolding char_denies
without-unquoted ok c h = ground arith

without-single :
    (ok : Allowed) (c : ℕ)
    → (without ok (char_denies c)).single ≡ true
    → (c == single_quote) ≡ false
unfolding char_denies
without-single ok c h = ground arith

-- The strategies left at the end hold every byte that the loop went over, and were allowed before.
strategy_loop-FitsAll :
    (ok : Allowed) (w : Text) → FitsAll (strategy_loop ok w).1 (take (strategy_loop ok w).0 w)
unfolding strategy_loop
strategy_loop-FitsAll ok [] = (λ _. tt, λ _. tt)
strategy_loop-FitsAll ok (c ∷ w) = elim (Bool-cases (is_empty (without ok (char_denies c)))) [
  | inl e ↦ rw e (λ _. tt, λ _. tt)
  | inr e ↦
      let (u, s) = strategy_loop_shrinks (without ok (char_denies c)) w in
      let (fu, fs) = strategy_loop-FitsAll (without ok (char_denies c)) w in
      rw e (λ h. (without-unquoted ok c (u h), fu h), λ h. (without-single ok c (s h), fs h))
]

best-Fits : (ok : Allowed) (chunk : Text) → FitsAll ok chunk → Fits (best ok) chunk
unfolding best
best-Fits ok chunk (fu, fs) = elim (Bool-cases ok.unquoted) [
  | inl e ↦ rw e (fu e)
  | inr e ↦ elim (Bool-cases ok.single) [ inl h ↦ rw (e, h) (fs h) | inr h ↦ rw (e, h) tt ]
]

caret_in_singles : (c : ℕ) → (c == b'^') ≡ true → (c == single_quote) ≡ false
caret_in_singles c h = ground arith

-- The strategy chosen for a prefix of a word may write it.
pub quoting_strategy-Fits : (w : Text) → Fits (quoting_strategy w).1 (take (quoting_strategy w).0 w)
unfolding quoting_strategy
quoting_strategy-Fits [] = tt
quoting_strategy-Fits (c ∷ w) = elim (Bool-cases (c == b'^')) [
  | inl e ↦
      let (fu, fs) = strategy_loop-FitsAll single_only w in
      rw e (
        best-Fits (strategy_loop single_only w).1 (c ∷ take (strategy_loop single_only w).0 w) (
          λ h. absurd (no_bare (strategy_loop_shrinks single_only w).0 h),
          λ h. (caret_in_singles c e, fs h),
        ))
  | inr e ↦ rw e (
      best-Fits (strategy_loop all_allowed (c ∷ w)).1 _ (strategy_loop-FitsAll all_allowed (c ∷ w)))
]
  where
    no_bare : {b : Bool} → (b ≡ true → false ≡ true) → ¬ (b ≡ true)
    no_bare f h = cc (f h)

-- Some strategy holds any first byte but a caret.
all_allowed-char_denies :
    (c : ℕ) → (c == b'^') ≡ false → is_empty (without all_allowed (char_denies c)) ≡ false
unfolding char_denies
all_allowed-char_denies c h = ground arith

strategy_loop_pos :
    (ok : Allowed) (c : ℕ) (w : Text)
    → is_empty (without ok (char_denies c)) ≡ false
    → 0 < (strategy_loop ok (c ∷ w)).0
unfolding strategy_loop
strategy_loop_pos ok c w h = rw h (omega arith)

-- Every round of quoting takes at least one byte.
pub quoting_strategy_pos : (c : ℕ) (w : Text) → 0 < (quoting_strategy (c ∷ w)).0
unfolding quoting_strategy
quoting_strategy_pos c w = elim (Bool-cases (c == b'^')) [
  | inl e ↦ rw e (omega arith)
  | inr e ↦ rw e (strategy_loop_pos all_allowed c w (all_allowed-char_denies c e))
]

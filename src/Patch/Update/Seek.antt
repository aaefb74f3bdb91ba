-- ===== src/Patch/Update/Seek.antt =====
-- internal/patch/update.go: what `seek` finds, and when it finds nothing.
use uagent_harness.Prelude.{
  ℕ, zero, suc, ◌+◌, ◌-◌, ◌≤◌, ◌<◌, ◌≡◌, refl, ◌∙◌, sym, ap, subst, Bool, true, false, inl, inr,
  Option, none, some, List, [], ◌∷◌, ◌++◌, arith, ◌==◌, ltb, if◌then◌else◌, Text, length,
  length-append, length-take, length-drop, drop-append, take-append, take-append-drop, take, drop,
  Bool-cases, All, some_inj,
}
use uagent_harness.Patch.Update.{Matcher, matchers, match_at, seek_loop, seek_by, seek, or_position}

-- Line by line, the lines are like the pattern.
pub data Alike (same : Matcher) : List Text → List Text → Type 0 where
  done : Alike same [] []
  next :
      {l q : Text} {ls pattern : List Text}
      → same l q ≡ true
      → Alike same ls pattern
      → Alike same (l ∷ ls) (q ∷ pattern)

-- The pattern stands in the lines after the first `i`.
pub record Occurs (same : Matcher) (lines pattern : List Text) (i : ℕ) : Type 0 where
  pub before : List Text
  pub found : List Text
  pub after : List Text
  pub whole : lines ≡ before ++ (found ++ after)
  pub place : length before ≡ i
  pub alike : Alike same found pattern

-- The place is the first, from `from` on, for the strictest matcher that has any.
pub data Best (lines pattern : List Text) (from i : ℕ) : List Matcher → Type 0 where
  this :
      {same : Matcher} {rest : List Matcher}
      → Occurs same lines pattern i
      → ((j : ℕ) → from ≤ j → j < i → Occurs same lines pattern j → ⊥)
      → Best lines pattern from i (same ∷ rest)
  later :
      {same : Matcher} {rest : List Matcher}
      → ((j : ℕ) → from ≤ j → Occurs same lines pattern j → ⊥)
      → Best lines pattern from i rest
      → Best lines pattern from i (same ∷ rest)

match_at-Alike :
    (same : Matcher) (ls pattern : List Text)
    → length ls ≡ length pattern
    → match_at same ls pattern ≡ true
    → Alike same ls pattern
unfolding match_at
match_at-Alike same [] [] e h = done
match_at-Alike same (l ∷ ls) [] e h = absurd (omega arith)
match_at-Alike same [] (q ∷ pattern) e h = absurd (omega arith)
match_at-Alike same (l ∷ ls) (q ∷ pattern) e h = elim (Bool-cases (same l q)) [
  | inl t ↦ next t (match_at-Alike same ls pattern (omega arith) (rw t at h))
  | inr t ↦ cc (rw t at h)
]

Alike-match_at :
    (same : Matcher) {ls pattern : List Text}
    → Alike same ls pattern
    → match_at same ls pattern ≡ true
unfolding match_at
Alike-match_at same done = refl
Alike-match_at same (next t a) = rw (t, Alike-match_at same a)

Alike-length :
    {same : Matcher} {ls pattern : List Text} → Alike same ls pattern → length ls ≡ length pattern
Alike-length done = refl
Alike-length (next t a) = omega (arith, Alike-length a)

pub Occurs-le :
    {same : Matcher} {lines pattern : List Text} {i : ℕ}
    → Occurs same lines pattern i
    → i + length pattern ≤ length lines
Occurs-le {lines = lines} o = omega (
  arith,
  ap length o.whole,
  length-append o.before (o.found ++ o.after),
  length-append o.found o.after,
  o.place,
  Alike-length o.alike,
)

match_at-Occurs :
    (same : Matcher) (lines pattern : List Text) (i : ℕ)
    → i + length pattern ≤ length lines
    → match_at same (take (length pattern) (drop i lines)) pattern ≡ true
    → Occurs same lines pattern i
match_at-Occurs same lines pattern i le h = record {
  before = take i lines;
  found = take (length pattern) (drop i lines);
  after = drop (length pattern) (drop i lines);
  whole =
      sym (take-append-drop i lines)
      ∙ ap (λ xs. take i lines ++ xs) (sym (take-append-drop (length pattern) (drop i lines)));
  place = length-take i lines (omega arith);
  alike =
      match_at-Alike same _ pattern
        (length-take (length pattern) (drop i lines) (omega (arith, length-drop i lines))) h;
}

Occurs-match_at :
    (same : Matcher) (lines pattern : List Text) (i : ℕ)
    → Occurs same lines pattern i
    → match_at same (take (length pattern) (drop i lines)) pattern ≡ true
Occurs-match_at same lines pattern i o =
    ap (λ ls. match_at same ls pattern) cut ∙ Alike-match_at same o.alike
  where
    dropped : drop i lines ≡ o.found ++ o.after
    dropped =
        ap (drop i) o.whole
        ∙ ap (λ n. drop n (o.before ++ (o.found ++ o.after))) (sym o.place)
        ∙ drop-append o.before (o.found ++ o.after)

    cut : take (length pattern) (drop i lines) ≡ o.found
    cut =
        ap (take (length pattern)) dropped
        ∙ ap (λ n. take n (o.found ++ o.after)) (sym (Alike-length o.alike))
        ∙ take-append o.found o.after

-- What the inner loop finds at `n` positions from `i` on.
abbrev Sought : Matcher → List Text → List Text → ℕ → ℕ → Option ℕ → Type 0
Sought same lines pattern n i none = (j : ℕ) → i ≤ j → j < i + n → Occurs same lines pattern j → ⊥
Sought same lines pattern n i (some k) =
    (i ≤ k)
    × Occurs same lines pattern k
    × ((j : ℕ) → i ≤ j → j < k → Occurs same lines pattern j → ⊥)

seek_loop-Sought :
    (same : Matcher) (lines pattern : List Text) (n i : ℕ)
    → i + n + length pattern ≤ suc (length lines)
    → Sought same lines pattern n i (seek_loop same lines pattern n i)
unfolding seek_loop
seek_loop-Sought same lines pattern zero i le = λ j a b o. omega arith
seek_loop-Sought same lines pattern (suc n) i le =
    elim (Bool-cases (match_at same (take (length pattern) (drop i lines)) pattern)) [
      | inl t ↦ rw t (
        omega arith,
        match_at-Occurs same lines pattern i (omega arith) t,
        λ j a b o. omega arith,
      )
      | inr t ↦ rw t (further t _ (seek_loop-Sought same lines pattern n (i + 1) (omega arith)))
    ]
  where
    not_here :
        match_at same (take (length pattern) (drop i lines)) pattern ≡ false
        → (j : ℕ) → j ≡ i
        → Occurs same lines pattern j
        → ⊥
    not_here t j e o =
        cc (t, Occurs-match_at same lines pattern i (subst (Occurs same lines pattern) e o))

    further :
        match_at same (take (length pattern) (drop i lines)) pattern ≡ false
        → (r : Option ℕ) → Sought same lines pattern n (i + 1) r
        → Sought same lines pattern (suc n) i r
    further t none h = λ j a b o. elim (Bool-cases (j == i)) [
      | inl e ↦ not_here t j (ground arith) o
      | inr e ↦ h j (ground arith) (omega arith) o
    ]
    further t (some k) (a, o, h) = (
      omega arith,
      o,
      λ j b c p. elim (Bool-cases (j == i)) [
        | inl e ↦ not_here t j (ground arith) p
        | inr e ↦ h j (ground arith) c p
      ],
    )

seek_loop-nil :
    (same : Matcher) (lines pattern : List Text) (n i : ℕ)
    → n ≡ 0
    → seek_loop same lines pattern n i ≡ none
unfolding seek_loop
seek_loop-nil same lines pattern zero i e = refl
seek_loop-nil same lines pattern (suc n) i e = absurd (omega arith)

-- No matcher has an occurrence.
abbrev pub Nowhere : List Matcher → List Text → List Text → ℕ → Type 0
Nowhere ms lines pattern from =
    All (λ same. (j : ℕ) → from ≤ j → Occurs same lines pattern j → ⊥) ms

-- What `seek` finds from a position on, when the pattern has a line.
abbrev pub Outcome : List Matcher → List Text → List Text → ℕ → Option ℕ → Type 0
Outcome ms lines pattern from none = Nowhere ms lines pattern from
Outcome ms lines pattern from (some i) = (from ≤ i) × Best lines pattern from i ms

seek_by-Outcome :
    (ms : List Matcher) (lines pattern : List Text) (from : ℕ)
    → length pattern ≤ length lines
    → Outcome ms lines pattern from (seek_by ms lines pattern from)
unfolding seek_by
seek_by-Outcome [] lines pattern from le = tt
seek_by-Outcome (same ∷ rest) lines pattern from le =
    elim (Bool-cases (ltb (length lines) (from + length pattern))) [
      | inl e ↦
          combine (seek_loop same lines pattern count from) (outside e) _
            (seek_by-Outcome rest lines pattern from le)
      | inr e ↦
          combine (seek_loop same lines pattern count from)
            (all_positions _ (ground arith)
              (seek_loop-Sought same lines pattern count from (ground arith)))
            _ (seek_by-Outcome rest lines pattern from le)
    ]
  where
    count : ℕ
    count = suc (length lines - length pattern) - from

    Whole : Option ℕ → Type 0
    Whole none = (j : ℕ) → from ≤ j → Occurs same lines pattern j → ⊥
    Whole (some k) =
        (from ≤ k)
        × Occurs same lines pattern k
        × ((j : ℕ) → from ≤ j → j < k → Occurs same lines pattern j → ⊥)

    outside :
        ltb (length lines) (from + length pattern) ≡ true
        → Whole (seek_loop same lines pattern count from)
    outside e =
        subst Whole (sym (seek_loop-nil same lines pattern count from (ground arith)))
          (λ j a o. ground (arith, Occurs-le o))

    all_positions :
        (r : Option ℕ)
        → from + length pattern ≤ length lines
        → Sought same lines pattern count from r
        → Whole r
    all_positions none e h = λ j a o. h j a (omega (arith, Occurs-le o)) o
    all_positions (some k) e h = h

    combine :
        (r : Option ℕ)
        → Whole r
        → (s : Option ℕ) → Outcome rest lines pattern from s
        → Outcome (same ∷ rest) lines pattern from (or_position r s)
    combine (some k) (a, o, h) s g = (a, this o h)
    combine none h none g = (h, g)
    combine none h (some i) (a, b) = (a, later h b)

abbrev pub search_start : List Text → List Text → ℕ → Bool → ℕ
search_start lines pattern start eof = if eof then length lines - length pattern else start

Nowhere-too_long :
    (ms : List Matcher) (lines pattern : List Text) (from : ℕ)
    → length lines < length pattern
    → Nowhere ms lines pattern from
Nowhere-too_long [] lines pattern from h = tt
Nowhere-too_long (same ∷ rest) lines pattern from h =
    (λ j a o. omega (arith, Occurs-le o), Nowhere-too_long rest lines pattern from h)

-- For a pattern with a line, `seek` gives the first place, from the start of the search on, for the
-- strictest matcher that has one there; it gives none when no matcher has a place. Without `eof` the
-- search starts at `start`. With `eof` it starts at the last place where the pattern fits, whatever
-- `start` is: that place may lie before `start`, and no other place is tried, although the comment
-- of `seek` promises a place at or after `start` and the end of the file only as the first try.
pub seek-Outcome :
    (lines pattern : List Text) (start : ℕ) (eof : Bool)
    → 0 < length pattern
    → Outcome matchers lines pattern
        (search_start lines pattern start eof)
        (seek lines pattern start eof)
unfolding seek
seek-Outcome lines pattern start eof pos = elim (Bool-cases (length pattern == 0)) [
  | inl z ↦ absurd (ground arith)
  | inr z ↦ elim (Bool-cases (ltb (length lines) (length pattern))) [
    | inl l ↦
        rw (z, l)
          (Nowhere-too_long matchers lines pattern (search_start lines pattern start eof)
            (ground arith))
    | inr l ↦
        rw (z, l)
          (seek_by-Outcome matchers lines pattern (search_start lines pattern start eof)
            (ground arith))
  ]
]

Best-le :
    {lines pattern : List Text} {from i : ℕ} {ms : List Matcher}
    → Best lines pattern from i ms
    → i + length pattern ≤ length lines
Best-le (this o h) = Occurs-le o
Best-le (later h b) = Best-le b

seek_empty :
    (lines pattern : List Text) (start : ℕ) (eof : Bool)
    → length pattern ≡ 0
    → seek lines pattern start eof ≡ some start
unfolding seek
seek_empty lines pattern start eof e = ground arith

Outcome-le :
    (lines pattern : List Text) (from i : ℕ) (ms : List Matcher) (o : Option ℕ)
    → o ≡ some i
    → Outcome ms lines pattern from o
    → i + length pattern ≤ length lines
Outcome-le lines pattern from i ms none e h = cc
Outcome-le lines pattern from i ms (some k) e h =
    let d : k ≡ i = some_inj k i e in omega (arith, Best-le h.1, d)

-- What is found lies in the lines.
pub seek-le :
    (lines pattern : List Text) (start : ℕ) (eof : Bool) (i : ℕ)
    → start ≤ length lines
    → seek lines pattern start eof ≡ some i
    → i + length pattern ≤ length lines
seek-le lines pattern start eof i le h = elim (Bool-cases (length pattern == 0)) [
  | inl z ↦
      let e : start ≡ i =
        some_inj start i (sym (seek_empty lines pattern start eof (ground arith)) ∙ h) in
      ground arith
  | inr z ↦
      Outcome-le lines pattern (search_start lines pattern start eof) i matchers _ h
        (seek-Outcome lines pattern start eof (ground arith))
]

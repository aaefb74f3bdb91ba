-- ===== src/Compaction/Tokens/Middle.antt =====
-- internal/compaction/keep.go: what TruncateMiddle leaves of a text that is too long.
use uagent_harness.Prelude.{
  ℕ, ◌+◌, ◌-◌, ◌*◌, ◌/◌, ◌≤◌, ◌<◌, ◌≡◌, refl, ◌∙◌, sym, ap, true, false, inl, inr, [], ◌∷◌, ◌++◌,
  ◌==◌, ltb, leb, arith, append_assoc, Bool-cases, Text,
}
use uagent_harness.Compaction.Tokens.{
  width, byte_length, take_bytes, drop_bytes, kept_end, truncated_mark, truncate_middle,
  tokens_of_bytes,
}

width-le : (c : ℕ) → width c ≤ 4
unfolding width
width-le c = ground arith

width-pos : (c : ℕ) → 1 ≤ width c
unfolding width
width-pos c = ground arith

byte_length-append : (s t : Text) → byte_length (s ++ t) ≡ byte_length s + byte_length t
unfolding byte_length
byte_length-append [] t = omega arith
byte_length-append (c ∷ s) t = omega (arith, byte_length-append s t)

byte_length-cons : (c : ℕ) (s : Text) → byte_length (c ∷ s) ≡ width c + byte_length s
unfolding byte_length
byte_length-cons c s = refl

byte_length-nil : byte_length [] ≡ 0
unfolding byte_length
byte_length-nil = refl

take_bytes-split : (n : ℕ) (s : Text) → (rest : Text) × (s ≡ take_bytes n s ++ rest)
unfolding take_bytes
take_bytes-split n [] = ([], refl)
take_bytes-split n (c ∷ s) = elim (Bool-cases (ltb n (width c))) [
  | inl l ↦ rw l (c ∷ s, refl)
  | inr l ↦ let (rest, e) = take_bytes-split (n - width c) s in rw l (rest, ap (λ x. c ∷ x) e)
]

drop_bytes-split : (n : ℕ) (s : Text) → (before : Text) × (s ≡ before ++ drop_bytes n s)
unfolding drop_bytes
drop_bytes-split n [] = ([], refl)
drop_bytes-split n (c ∷ s) = elim (Bool-cases (leb (byte_length (c ∷ s)) n)) [
  | inl l ↦ rw l ([], refl)
  | inr l ↦ let (before, e) = drop_bytes-split n s in rw l (c ∷ before, ap (λ x. c ∷ x) e)
]

-- All of the text, or at most three bytes less than what is asked for.
abbrev IsNearly : ℕ → ℕ → ℕ → Type 0
IsNearly size whole n = (size ≤ n) × (n ≤ whole → n ≤ size + 3)

take_bytes-IsNearly : (n : ℕ) (s : Text) → IsNearly (byte_length (take_bytes n s)) (byte_length s) n
unfolding take_bytes
take_bytes-IsNearly n [] = (omega (arith, byte_length-nil), λ h. omega (arith, byte_length-nil))
take_bytes-IsNearly n (c ∷ s) = elim (Bool-cases (ltb n (width c))) [
  | inl l ↦ rw l (omega (arith, byte_length-nil), λ h. ground (arith, byte_length-nil, width-le c))
  | inr l ↦
      let (small, near) = take_bytes-IsNearly (n - width c) s in
      let size = byte_length-cons c (take_bytes (n - width c) s) in
      let le : width c ≤ n = ground arith in
      rw l (
        omega arith,
        λ h.
            let more : n - width c ≤ byte_length s = omega (arith, byte_length-cons c s) in
            let k = near more in omega arith,
      )
]

drop_bytes_all : (n : ℕ) (s : Text) → byte_length s ≤ n → drop_bytes n s ≡ s
unfolding drop_bytes
drop_bytes_all n [] h = refl
drop_bytes_all n (c ∷ s) h = elim (Bool-cases (leb (byte_length (c ∷ s)) n)) [
  | inl l ↦ rw l
  | inr l ↦ absurd (ground arith)
]

drop_bytes-IsNearly : (n : ℕ) (s : Text) → IsNearly (byte_length (drop_bytes n s)) (byte_length s) n
unfolding drop_bytes
drop_bytes-IsNearly n [] = (omega (arith, byte_length-nil), λ h. omega (arith, byte_length-nil))
drop_bytes-IsNearly n (c ∷ s) = elim (Bool-cases (leb (byte_length (c ∷ s)) n)) [
  | inl l ↦ rw l (ground arith, λ h. omega arith)
  | inr l ↦
      let (small, near) = drop_bytes-IsNearly n s in
      let big : n < byte_length (c ∷ s) = ground arith in
      rw l (
        small,
        λ h. elim (Bool-cases (leb n (byte_length s))) [
          | inl m ↦ near (ground arith)
          | inr m ↦ whole_end big (ground arith)
        ],
      )
]
  where
    whole_end : n < byte_length (c ∷ s) → byte_length s < n → n ≤ byte_length (drop_bytes n s) + 3
    whole_end big less =
        let kept = ap byte_length (drop_bytes_all n s (omega arith)) in
        omega (arith, byte_length-cons c s, width-le c)

-- A start and an end that are no longer than the text, as two parts of it.
apart :
    (p r b e : Text)
    → p ++ r ≡ b ++ e
    → byte_length p + byte_length e ≤ byte_length (p ++ r)
    → (gone : Text) × (b ≡ p ++ gone)
apart [] r b e h le = (b, refl)
apart (c ∷ p) r [] e h le =
    absurd (omega (arith, ap byte_length h, byte_length-cons c p, width-pos c))
apart (c ∷ p) r (d ∷ b) e h le =
    let tails : p ++ r ≡ b ++ e = cc in
    let (gone, k) =
      apart p r b e tails (omega (arith, byte_length-cons c p, byte_length-cons c (p ++ r))) in
    (gone, cc)

-- `cut` is the text with a part replaced by the mark. What is left of the text takes at most `n`
-- tokens, and at most six bytes less.
pub record Middle (text : Text) (n : ℕ) (cut : Text) : Type 0 where
  pub front : Text
  pub gone : Text
  pub end : Text
  pub whole : text ≡ front ++ (gone ++ end)
  pub marked : cut ≡ front ++ (truncated_mark (tokens_of_bytes (byte_length text - 4 * n)) ++ end)
  pub at_most : byte_length front + byte_length end ≤ 4 * n
  pub at_least : 4 * n ≤ byte_length front + byte_length end + 6

truncate_middle_long :
    (text : Text) (n : ℕ)
    → 0 < n
    → 4 * n < byte_length text
    → truncate_middle text n
      ≡ take_bytes (2 * n) text
        ++ (truncated_mark (tokens_of_bytes (byte_length text - 4 * n)) ++ drop_bytes (2 * n) text)
unfolding truncate_middle kept_end
truncate_middle_long [] n pos long = absurd (omega (arith, byte_length-nil))
truncate_middle_long (c ∷ s) n pos long =
    let half : n * 4 / 2 ≡ 2 * n = omega arith in
    let other : n * 4 - 2 * n ≡ 2 * n = omega arith in
    let all : n * 4 ≡ 4 * n = omega arith in
    let too_long : leb (byte_length (c ∷ s)) (n * 4) ≡ false = ground arith in
    let asked : ltb 0 n ≡ true = ground arith in
    let some_bytes : (n * 4 == 0) ≡ false = ground arith in
    let (front_small, front_near) = take_bytes-IsNearly (2 * n) (c ∷ s) in
    let (end_small, end_near) = drop_bytes-IsNearly (2 * n) (c ∷ s) in
    let in_order : ltb (byte_length (c ∷ s) - byte_length (drop_bytes (2 * n) (c ∷ s)))
          (byte_length (take_bytes (2 * n) (c ∷ s)))
        ≡ false =
      ground arith in
    rw (asked, too_long, some_bytes, half, other, in_order, all)

pub truncate_middle-Middle :
    (text : Text) (n : ℕ)
    → 0 < n
    → 4 * n < byte_length text
    → Middle text n (truncate_middle text n)
truncate_middle-Middle text n pos long =
    let (front_small, front_near) = take_bytes-IsNearly (2 * n) text in
    let (end_small, end_near) = drop_bytes-IsNearly (2 * n) text in
    let (rest, starts) = take_bytes-split (2 * n) text in
    let (before, ends) = drop_bytes-split (2 * n) text in
    let near = front_near (omega arith) in
    let near' = end_near (omega arith) in
    let (gone, parts) =
      apart (take_bytes (2 * n) text) rest before (drop_bytes (2 * n) text) (sym starts ∙ ends)
        (omega (arith, ap byte_length starts)) in
    record {
      front = take_bytes (2 * n) text;
      gone = gone;
      end = drop_bytes (2 * n) text;
      whole =
          ends
          ∙ ap (λ x. x ++ drop_bytes (2 * n) text) parts
          ∙ append_assoc (take_bytes (2 * n) text) gone (drop_bytes (2 * n) text);
      marked = truncate_middle_long text n pos long;
      at_most = omega arith;
      at_least = omega arith;
    }

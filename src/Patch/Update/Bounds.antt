-- ===== src/Patch/Update/Bounds.antt =====
-- internal/patch/update.go: the replacements lie in the file's lines and are in order, so that every
-- slice that `updated` takes is in range.
use uagent_harness.Prelude.{
  ℕ, ◌+◌, ◌≤◌, ◌≡◌, refl, subst, Bool, true, false, inl, inr, Option, none, some, List, [], ◌∷◌,
  ◌++◌, arith, ◌==◌, leb, if◌then◌else◌, Text, length, length-append, length-take, take, drop,
  Bool-cases, All,
}
use uagent_harness.Patch.Parse.{Chunk, last?, but_last}
use uagent_harness.Patch.Update.{
  Replacement, Result, ok, fail, ◌>>=◌, seek, after_context, context_at, ends_empty, insert_at,
  without_empty, located, retry, or_retry, replacement, replacements_loop, insert_by_start,
  sort_by_start, replacements, splice, splice_all,
}
use uagent_harness.Patch.Update.Seek.{seek-le}

-- A replacement of lines that are there.
abbrev pub IsWithin : List Text → Replacement → Type 0
IsWithin lines r = r.start + r.count ≤ length lines

-- By start, and stable.
abbrev pub IsSorted : List Replacement → Type 0
IsSorted [] = Unit
IsSorted (r ∷ reps) = All (λ (q : Replacement). r.start ≤ q.start) reps × IsSorted reps

-- A result that is an error, or has the property.
abbrev Gives {ℓ} : {A : Type ℓ} → (A → Type 0) → Result A → Type 0
Gives P (ok a) = P a
Gives P (fail e) = Unit

Gives-bind {ℓ κ} :
    {A : Type ℓ} {B : Type κ} (P : A → Type 0) (Q : B → Type 0) (r : Result A) (f : A → Result B)
    → Gives P r
    → ((a : A) → P a → Gives Q (f a))
    → Gives Q (r >>= f)
Gives-bind P Q (ok a) f h k = k a h
Gives-bind P Q (fail e) f h k = tt

Gives-if {ℓ} :
    {A : Type ℓ} (P : A → Type 0) (b : Bool) (x y : Result A)
    → Gives P x
    → Gives P y
    → Gives P (if b then x else y)
Gives-if P true x y h k = h
Gives-if P false x y h k = k

-- The replacement and the place after it, in the lines.
abbrev Placed : List Text → Replacement × ℕ → Type 0
Placed lines (r, next) = IsWithin lines r × (next ≤ length lines)

context_at-le :
    (lines : List Text) (at : ℕ) (c : Chunk)
    → at ≤ length lines
    → Gives (λ from. from ≤ length lines) (context_at lines at c)
unfolding context_at
context_at-le lines at c le =
    Gives-if _ c.has_context _ (ok at) (found (seek lines (c.context ∷ []) at false) refl) le
  where
    found :
        (o : Option ℕ)
        → seek lines (c.context ∷ []) at false ≡ o
        → Gives (λ from. from ≤ length lines) (after_context c.context o)
    found none e = tt
    found (some i) e = omega (arith, seek-le lines (c.context ∷ []) at false i le e)

insert_at-le : (lines : List Text) → insert_at lines ≤ length lines
unfolding insert_at
insert_at-le lines = ground arith

located-Placed :
    (lines : List Text) (at : ℕ) (c : Chunk) (pattern new : List Text) (o : Option ℕ)
    → at ≤ length lines
    → seek lines pattern at c.end_of_file ≡ o
    → Gives (Placed lines) (located c pattern new o)
located-Placed lines at c pattern new none le e = tt
located-Placed lines at c pattern new (some i) le e =
    (seek-le lines pattern at c.end_of_file i le e, seek-le lines pattern at c.end_of_file i le e)

retry-Placed :
    (lines : List Text) (at : ℕ) (c : Chunk)
    → at ≤ length lines
    → Gives (Placed lines) (retry lines at c)
unfolding retry
retry-Placed lines at c le =
    Gives-if (Placed lines) (ends_empty (last? c.old)) _ _
      (located-Placed lines at c (but_last c.old) (without_empty c.new) _ le refl) tt

or_retry-Placed :
    (lines : List Text) (at : ℕ) (c : Chunk) (o : Option ℕ) (second : Result (Replacement × ℕ))
    → at ≤ length lines
    → seek lines c.old at c.end_of_file ≡ o
    → Gives (Placed lines) second
    → Gives (Placed lines) (or_retry c o second)
or_retry-Placed lines at c none second le e h = h
or_retry-Placed lines at c (some i) second le e h =
    (seek-le lines c.old at c.end_of_file i le e, seek-le lines c.old at c.end_of_file i le e)

replacement-Placed :
    (lines : List Text) (at : ℕ) (c : Chunk)
    → at ≤ length lines
    → Gives (Placed lines) (replacement lines at c)
unfolding replacement
replacement-Placed lines at c le =
    Gives-if (Placed lines) (length c.old == 0) _ _ (omega (arith, insert_at-le lines), le)
      (or_retry-Placed lines at c (seek lines c.old at c.end_of_file) _ le refl
        (retry-Placed lines at c le))

replacements_loop-IsWithin :
    (lines : List Text) (at : ℕ) (chunks : List Chunk)
    → at ≤ length lines
    → Gives (λ reps. All (IsWithin lines) reps) (replacements_loop lines at chunks)
unfolding replacements_loop
replacements_loop-IsWithin lines at [] le = tt
replacements_loop-IsWithin lines at (c ∷ chunks) le =
    Gives-bind _ _ (context_at lines at c) _ (context_at-le lines at c le) (λ from l.
      Gives-bind (Placed lines) _ (replacement lines from c) _ (replacement-Placed lines from c l)
        (λ p h.
          Gives-bind (λ reps. All (IsWithin lines) reps) _ (replacements_loop lines p.1 chunks) _
            (replacements_loop-IsWithin lines p.1 chunks h.1) (λ rest a. (h.0, a))))

insert_by_start-All :
    (P : Replacement → Type 0) (r : Replacement) (reps : List Replacement)
    → P r
    → All P reps
    → All P (insert_by_start r reps)
unfolding insert_by_start
insert_by_start-All P r [] h k = (h, tt)
insert_by_start-All P r (q ∷ reps) h (k, l) = elim (Bool-cases (leb r.start q.start)) [
  | inl e ↦ rw e (h, (k, l))
  | inr e ↦ rw e (k, insert_by_start-All P r reps h l)
]

sort_by_start-All :
    (P : Replacement → Type 0) (reps : List Replacement) → All P reps → All P (sort_by_start reps)
unfolding sort_by_start
sort_by_start-All P [] h = tt
sort_by_start-All P (r ∷ reps) (h, k) =
    insert_by_start-All P r (sort_by_start reps) h (sort_by_start-All P reps k)

All-start_le :
    (m n : ℕ) (reps : List Replacement)
    → m ≤ n
    → All (λ (q : Replacement). n ≤ q.start) reps
    → All (λ (q : Replacement). m ≤ q.start) reps
All-start_le m n [] le h = tt
All-start_le m n (r ∷ reps) le (h, k) = (omega arith, All-start_le m n reps le k)

insert_by_start-IsSorted :
    (r : Replacement) (reps : List Replacement) → IsSorted reps → IsSorted (insert_by_start r reps)
unfolding insert_by_start
insert_by_start-IsSorted r [] h = (tt, tt)
insert_by_start-IsSorted r (q ∷ reps) (h, k) = elim (Bool-cases (leb r.start q.start)) [
  | inl e ↦ rw e ((ground arith, All-start_le r.start q.start reps (ground arith) h), (h, k))
  | inr e ↦ rw e (
    insert_by_start-All (λ (x : Replacement). q.start ≤ x.start) r reps (ground arith) h,
    insert_by_start-IsSorted r reps k,
  )
]

sort_by_start-IsSorted : (reps : List Replacement) → IsSorted (sort_by_start reps)
unfolding sort_by_start
sort_by_start-IsSorted [] = tt
sort_by_start-IsSorted (r ∷ reps) =
    insert_by_start-IsSorted r (sort_by_start reps) (sort_by_start-IsSorted reps)

-- The replacements of an update lie in the file's lines, and are sorted by where they start.
pub replacements-IsWithin :
    (lines : List Text) (chunks : List Chunk) (reps : List Replacement)
    → replacements lines chunks ≡ ok reps
    → All (IsWithin lines) reps × IsSorted reps
unfolding replacements
replacements-IsWithin lines chunks reps h =
    subst (Gives (λ x. All (IsWithin lines) x × IsSorted x)) h (
      Gives-bind (λ x. All (IsWithin lines) x) _ (replacements_loop lines 0 chunks) _
        (replacements_loop-IsWithin lines 0 chunks (omega arith))
        (λ x a. (sort_by_start-All (IsWithin lines) x a, sort_by_start-IsSorted x)))

-- Each replacement starts in the lines that it is made in, those after the later ones.
abbrev pub AreInRange : List Replacement → List Text → Type 0
AreInRange [] lines = Unit
AreInRange (r ∷ reps) lines = (r.start ≤ length (splice_all reps lines)) × AreInRange reps lines

splice-start :
    (r : Replacement) (lines : List Text)
    → r.start ≤ length lines
    → r.start ≤ length (splice r lines)
unfolding splice
splice-start r lines le =
    let rest =
      drop (if leb (r.start + r.count) (length lines) then r.start + r.count else length lines)
        lines in
    omega
      (arith, length-append (take r.start lines) (r.lines ++ rest), length-take r.start lines le)

splice_all-le :
    (n : ℕ) (reps : List Replacement) (lines : List Text)
    → n ≤ length lines
    → All (λ (q : Replacement). n ≤ q.start) reps
    → AreInRange reps lines
    → n ≤ length (splice_all reps lines)
unfolding splice_all
splice_all-le n [] lines le h k = le
splice_all-le n (r ∷ reps) lines le (h, hs) (k, ks) =
    omega (arith, splice-start r (splice_all reps lines) k)

sorted-AreInRange :
    (reps : List Replacement) (lines : List Text)
    → All (IsWithin lines) reps
    → IsSorted reps
    → AreInRange reps lines
sorted-AreInRange [] lines h s = tt
sorted-AreInRange (r ∷ reps) lines (h, hs) (s, ss) =
    let rest = sorted-AreInRange reps lines hs ss in
    (splice_all-le r.start reps lines (omega arith) s rest, rest)

-- An update never slices out of range: at each replacement, made from the last to the first, the
-- place where it starts is at most the length of the lines at that time.
pub replacements-AreInRange :
    (lines : List Text) (chunks : List Chunk) (reps : List Replacement)
    → replacements lines chunks ≡ ok reps
    → AreInRange reps lines
replacements-AreInRange lines chunks reps h =
    let (w, s) = replacements-IsWithin lines chunks reps h in sorted-AreInRange reps lines w s

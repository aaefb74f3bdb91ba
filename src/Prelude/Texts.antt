-- ===== src/Prelude/Texts.antt =====
-- Texts as lists of numbers, with the functions of Go's `strings`, `slices` and `path/filepath` packages that
-- the program calls.
use Prim.Native.Nat.{ℕ}
use Prim.Native.Char.{code}
use Prim.Native.String.{String}
use mathlib.Core.Path.{◌≡◌, refl}
use mathlib.Core.Logic.{◌↔◌, inl, inr}
use mathlib.Core.Bool.{Bool, true, false, ◌||◌, ◌&&◌}
use mathlib.Core.List.{List, [], ◌∷◌, ◌++◌}
use native.Mathlib.Omega.{arith}
use uagent_harness.Prelude.Lists.{Exists, here, there}
use uagent_harness.Prelude.Tests.{Bool-cases, ◌==◌}

abbrev pub Text : Type 0
Text = List ℕ

-- The code points of a literal, which are its bytes where it is ASCII.
abbrev pub codes : String → Text
codes String.[] = []
codes (String.◌∷◌ c s) = code c ∷ codes s

unfoldable pub text_eq : Text → Text → Bool
text_eq [] [] = true
text_eq [] (_ ∷ _) = false
text_eq (_ ∷ _) [] = false
text_eq (a ∷ s) (b ∷ t) = (a == b) && text_eq s t

text_eq_sound : (s t : Text) → text_eq s t ≡ true → s ≡ t
unfolding text_eq
text_eq_sound [] [] h = refl
text_eq_sound [] (_ ∷ _) h = ground arith
text_eq_sound (_ ∷ _) [] h = ground arith
text_eq_sound (a ∷ s) (b ∷ t) h = ground (arith, text_eq_sound s t)

pub text_eq_refl : (s : Text) → text_eq s s ≡ true
unfolding text_eq
text_eq_refl [] = refl
text_eq_refl (a ∷ s) = ground (arith, text_eq_refl s)

pub text_eq_iff : (s t : Text) → (text_eq s t ≡ true) ↔ (s ≡ t)
text_eq_iff s t = (text_eq_sound s t, λ e. ground (arith, text_eq_refl s))

-- slices.Contains
unfoldable pub contains : List Text → Text → Bool
contains [] w = false
contains (a ∷ l) w = text_eq a w || contains l w

contains_sound : (l : List Text) (w : Text) → contains l w ≡ true → Exists (λ a. a ≡ w) l
unfolding contains
contains_sound [] w h = cc
contains_sound (a ∷ l) w h = elim (Bool-cases (text_eq a w)) [
  | inl e ↦ here ((text_eq_iff a w).0 e)
  | inr e ↦ there (contains_sound l w (rw e at h))
]

contains_complete : {w : Text} {l : List Text} → Exists (λ a. a ≡ w) l → contains l w ≡ true
unfolding contains
contains_complete {w} (here {x} e) = ground (arith, (text_eq_iff x w).1 e)
contains_complete (there e) = ground (arith, contains_complete e)

pub contains_iff : (l : List Text) (w : Text) → (contains l w ≡ true) ↔ Exists (λ a. a ≡ w) l
contains_iff l w = (contains_sound l w, contains_complete)

-- strings.HasPrefix
unfoldable pub has_prefix : Text → Text → Bool
has_prefix s [] = true
has_prefix [] (_ ∷ _) = false
has_prefix (a ∷ s) (b ∷ p) = (a == b) && has_prefix s p

pub has_prefix-append : (p s : Text) → has_prefix (p ++ s) p ≡ true
unfolding has_prefix
has_prefix-append [] s = refl
has_prefix-append (a ∷ p) s = ground (arith, has_prefix-append p s)

-- strings.Contains
unfoldable pub has_infix : Text → Text → Bool
has_infix [] part = text_eq part []
has_infix (c ∷ s) part = let rest = has_infix s part in has_prefix (c ∷ s) part || rest

-- strings.Join with a space
unfoldable pub join_words : List Text → Text
join_words [] = []
join_words (w ∷ []) = w
join_words (w ∷ v ∷ ws) = w ++ (b' ' ∷ join_words (v ∷ ws))

-- slices.Equal
unfoldable pub texts_eq : List Text → List Text → Bool
texts_eq [] [] = true
texts_eq [] (_ ∷ _) = false
texts_eq (_ ∷ _) [] = false
texts_eq (s ∷ ss) (t ∷ ts) = text_eq s t && texts_eq ss ts

pub texts_eq_sound : (ss ts : List Text) → texts_eq ss ts ≡ true → ss ≡ ts
unfolding texts_eq
texts_eq_sound [] [] h = refl
texts_eq_sound [] (_ ∷ _) h = cc
texts_eq_sound (_ ∷ _) [] h = cc
texts_eq_sound (s ∷ ss) (t ∷ ts) h = ground (arith, text_eq_iff s t, texts_eq_sound ss ts)

pub contains-append_right :
    (ts us : List Text) (w : Text) → contains us w ≡ true → contains (ts ++ us) w ≡ true
unfolding contains
contains-append_right [] us w h = h
contains-append_right (t ∷ ts) us w h = ground (arith, contains-append_right ts us w h)

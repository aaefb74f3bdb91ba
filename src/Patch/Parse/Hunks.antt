-- ===== src/Patch/Parse/Hunks.antt =====
-- internal/patch/parse.go: which hunks are whole, and which may still grow at the end of the list.
use uagent_harness.Prelude.{
  ◌≡◌, ◌<◌, refl, false, none, some, List, [], ◌∷◌, ◌++◌, subst, some_inj, sym, length, All,
}
use uagent_harness.Patch.Parse.{Op, add, delete, update, Chunk, Hunk, is_empty, last?, update_last}

-- `P` of all but the last, `Q` of the last, if there is one.
abbrev pub Last {ℓ} : {A : Type ℓ} → (A → Type 0) → (A → Type 0) → List A → Type 0
Last P Q [] = Unit
Last P Q (a ∷ []) = Q a
Last P Q (a ∷ b ∷ l) = P a × Last P Q (b ∷ l)

module _ {ℓ} {A : Type ℓ} (P Q : A → Type 0) where
  pub Last-last? : (l : List A) (a : A) → last? l ≡ some a → Last P Q l → Q a
  unfolding last?
  Last-last? [] a e h = cc
  Last-last? (b ∷ []) a e h =
      let d : b ≡ a = cc in let k : (x : A) → b ≡ x → Q b → Q x = λ x p q. rw (← p) q in k a d h
  Last-last? (b ∷ c ∷ l) a e h = Last-last? (c ∷ l) a e h.1

  pub Last-All : (l : List A) → ((a : A) → Q a → P a) → Last P Q l → All P l
  Last-All [] f h = tt
  Last-All (a ∷ []) f h = (f a h, tt)
  Last-All (a ∷ b ∷ l) f h = (h.0, Last-All (b ∷ l) f h.1)

  pub Last-append : (l : List A) (a : A) → All P l → Q a → Last P Q (l ++ a ∷ [])
  Last-append [] a h q = q
  Last-append (b ∷ []) a h q = (h.0, q)
  Last-append (b ∷ c ∷ l) a h q = (h.0, Last-append (c ∷ l) a h.1 q)

  pub All-Last : (l : List A) → ((a : A) → P a → Q a) → All P l → Last P Q l
  All-Last [] f h = tt
  All-Last (a ∷ []) f h = f a h.0
  All-Last (a ∷ b ∷ l) f h = (h.0, All-Last (b ∷ l) f h.1)

module _ {ℓ} {A : Type ℓ} (P Q R : A → Type 0) where
  pub Last-update_last :
      (l : List A) (f : A → A)
      → ((a : A) → last? l ≡ some a → Q a → R (f a))
      → Last P Q l
      → Last P R (update_last f l)
  unfolding update_last last?
  Last-update_last [] f g h = tt
  Last-update_last (a ∷ []) f g h = g a refl h
  Last-update_last (a ∷ b ∷ []) f g h = (h.0, g b refl h.1)
  Last-update_last (a ∷ b ∷ c ∷ l) f g h = (h.0, Last-update_last (b ∷ c ∷ l) f g h.1)

abbrev pub IsFull : Chunk → Type 0
IsFull c = is_empty c ≡ false

abbrev pub IsAny {ℓ} : {A : Type ℓ} → A → Type 0
IsAny a = Unit

-- What a hunk of each kind holds, with `C` of an update's chunks.
abbrev pub Shape : (List Chunk → Type 0) → Op → Hunk → Type 0
Shape C add h = (h.op ≡ add) × (h.move_path ≡ []) × (h.chunks ≡ [])
Shape C delete h = (h.op ≡ delete) × (h.contents ≡ []) × (h.move_path ≡ []) × (h.chunks ≡ [])
Shape C update h = (h.op ≡ update) × (h.contents ≡ []) × C h.chunks

-- Every chunk has a line, and there is one.
abbrev pub FullChunks : List Chunk → Type 0
FullChunks cs = (0 < length cs) × All IsFull cs

-- An added file has no chunks, a deleted file nothing but its path, and an updated file at least
-- one chunk, each with a line.
abbrev pub IsComplete : Hunk → Type 0
IsComplete h = Shape FullChunks h.op h

-- Every chunk but the last has a line.
abbrev pub OpenChunks : List Chunk → Type 0
OpenChunks = Last IsFull IsAny

module _ {ℓ} {A : Type ℓ} (P Q : A → Type 0) where
  pub Last-complete : (l : List A) (a : A) → last? l ≡ some a → P a → Last P Q l → All P l
  unfolding last?
  Last-complete [] a e p h = tt
  Last-complete (b ∷ []) a e p h = (subst P (some_inj a b (sym e)) p, tt)
  Last-complete (b ∷ c ∷ l) a e p h = (h.0, Last-complete (c ∷ l) a e p h.1)

pub last?-none {ℓ} : {A : Type ℓ} (l : List A) → last? l ≡ none → l ≡ []
unfolding last?
last?-none [] h = refl
last?-none (a ∷ []) h = cc
last?-none (a ∷ b ∷ l) h = let e : b ∷ l ≡ [] = last?-none (b ∷ l) h in cc

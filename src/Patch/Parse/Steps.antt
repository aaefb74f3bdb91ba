-- ===== src/Patch/Parse/Steps.antt =====
-- internal/patch/parse.go: what the parser holds after each line.
use uagent_harness.Prelude.{
  ◌≡◌, ◌<◌, inl, inr, refl, sym, ap, subst, Bool, true, false, Option, none, some, List, arith,
  Text, length, All, Bool-cases, Option-cases, if◌then◌else◌, text_eq,
}
use uagent_harness.Patch.Parse.{
  Op, add, delete, update, Chunk, Hunk, is_empty, last?, Mode, not_started, started, adding,
  deleting, updating, ended, Parser, ParseError, Result, ok, fail, unless, ensure_chunk,
  ensure_hunk, ensure_update_not_empty, header_hunk, header_of, unless_header, header_start, header,
  start_hunk, end_mode, end_patch,
}
use uagent_harness.Patch.Parse.Hunks.{
  Last, Last-last?, Last-append, All-Last, IsFull, IsAny, Shape, FullChunks, IsComplete, OpenChunks,
  Last-complete, last?-none,
}

-- The last hunk, as the mode says; the others are complete.
abbrev pub Current : Mode → Hunk → Type 0
Current not_started h = IsComplete h
Current started h = IsComplete h
Current adding h = Shape OpenChunks add h
Current deleting h = Shape OpenChunks delete h
Current updating h = Shape OpenChunks update h
Current ended h = IsComplete h

abbrev pub Inv : Parser → Type 0
Inv p = Last IsComplete (Current p.mode) p.hunks

unless-ok {ℓ} :
    {A : Type ℓ} (o : Option ParseError) (a b : A) → unless o a ≡ ok b → (o ≡ none) × (a ≡ b)
unless-ok none a b h = (refl, cc)
unless-ok (some e) a b h = cc

ensure_chunk-none :
    (p : Parser) (line : Text) (o : Option Chunk) (cs : List Chunk)
    → last? cs ≡ o
    → 0 < length cs
    → ensure_chunk p line o ≡ none
    → OpenChunks cs
    → FullChunks cs
unfolding ensure_chunk
ensure_chunk-none p line none cs e pos h k = absurd (omega (arith, ap length (last?-none cs e)))
ensure_chunk-none p line (some c) cs e pos h k = elim (Bool-cases (is_empty c)) [
  | inl t ↦ cc (rw t at h)
  | inr t ↦ (pos, Last-complete IsFull IsAny cs c e t k)
]

-- A shape, with the kind taken from the hunk.
pub Shape-op :
    (C : List Chunk → Type 0) (o : Op) (h : Hunk) → h.op ≡ o → Shape C o h → Shape C h.op h
Shape-op C o h e s = subst (λ x. Shape C x h) (sym e) s

ensure_hunk-update :
    (p : Parser) (line : Text) (h : Hunk)
    → p.mode ≡ updating
    → h.op ≡ update
    → ensure_hunk p line (some h) ≡ none
    → (0 < length h.chunks) × (ensure_chunk p line (last? h.chunks) ≡ none)
unfolding ensure_hunk
ensure_hunk-update p line h m o e = (ground arith, ground arith)

-- The last hunk is complete where the check finds no fault.
ensure_hunk-none :
    (m : Mode) (p : Parser) (line : Text) (h : Hunk)
    → p.mode ≡ m
    → Current m h
    → ensure_hunk p line (some h) ≡ none
    → IsComplete h
ensure_hunk-none not_started p line h m c e = c
ensure_hunk-none started p line h m c e = c
ensure_hunk-none adding p line h m c e = Shape-op FullChunks add h c.0 c
ensure_hunk-none deleting p line h m c e = Shape-op FullChunks delete h c.0 c
ensure_hunk-none updating p line h m (o, s, k) e =
    let (pos, d) = ensure_hunk-update p line h m o e in
    Shape-op FullChunks update h o (o, s, ensure_chunk-none p line _ h.chunks refl pos d k)
ensure_hunk-none ended p line h m c e = c

pub ensure-All :
    (p : Parser) (line : Text)
    → Inv p
    → ensure_update_not_empty p line ≡ none
    → All IsComplete p.hunks
unfolding ensure_update_not_empty
ensure-All p line i e = elim (Option-cases (last? p.hunks)) [
  | inl n ↦ subst (All IsComplete) (sym (last?-none p.hunks n)) tt
  | inr (h, n) ↦
      Last-complete IsComplete (Current p.mode) p.hunks h n
        (ensure_hunk-none p.mode p line h refl
          (Last-last? IsComplete (Current p.mode) p.hunks h n i) (rw n at e))
        i
]

pub Inv-ended : (p : Parser) → All IsComplete p.hunks → Inv (end_mode p)
Inv-ended p h = All-Last IsComplete IsComplete p.hunks (λ a k. k) h

Inv-start_hunk :
    (p : Parser) (h : Hunk) (next : Mode)
    → All IsComplete p.hunks
    → Current next h
    → Inv (start_hunk p h next)
unfolding start_hunk
Inv-start_hunk p h next a c = Last-append IsComplete (Current next) p.hunks h a c

abbrev CurrentOf : Option (Hunk × Mode) → Type 0
CurrentOf none = Unit
CurrentOf (some (h, m)) = Current m h

header_of-CurrentOf : (a d u : Option Text) → CurrentOf (header_of a d u)
header_of-CurrentOf (some path) d u = (refl, refl, refl)
header_of-CurrentOf none (some path) u = (refl, refl, refl, refl)
header_of-CurrentOf none none (some path) = (refl, refl, tt)
header_of-CurrentOf none none none = tt

-- A result keeps the invariant: an error does, and so does a line that is no header.
abbrev pub Keeps : Result Parser → Type 0
Keeps (ok p) = Inv p
Keeps (fail e) = Unit

abbrev pub KeepsHeader : Result (Option Parser) → Type 0
KeepsHeader (ok (some p)) = Inv p
KeepsHeader (ok none) = Unit
KeepsHeader (fail e) = Unit

KeepsHeader-unless :
    (o : Option ParseError) (p : Parser) → (o ≡ none → Inv p) → KeepsHeader (unless o (some p))
KeepsHeader-unless none p h = h refl
KeepsHeader-unless (some e) p h = tt

header_start-KeepsHeader :
    (p : Parser) (t : Text) (o : Option (Hunk × Mode))
    → Inv p
    → CurrentOf o
    → KeepsHeader (header_start p t o)
unfolding header_start
header_start-KeepsHeader p t none i c = tt
header_start-KeepsHeader p t (some (h, next)) i c =
    KeepsHeader-unless (ensure_update_not_empty p t) (start_hunk p h next)
      (λ e. Inv-start_hunk p h next (ensure-All p t i e) c)

pub header-KeepsHeader : (p : Parser) (t : Text) → Inv p → KeepsHeader (header p t)
unfolding header header_hunk
header-KeepsHeader p t i = elim (Bool-cases (text_eq t end_patch)) [
  | inl e ↦ rw e (
      KeepsHeader-unless (ensure_update_not_empty p t) (end_mode p)
        (λ h. Inv-ended p (ensure-All p t i h)))
  | inr e ↦ rw e (header_start-KeepsHeader p t (header_of _ _ _) i (header_of-CurrentOf _ _ _))
]

pub Keeps-unless_header :
    (r : Result (Option Parser)) (other : Result Parser)
    → KeepsHeader r
    → Keeps other
    → Keeps (unless_header r other)
Keeps-unless_header (ok (some p)) other h k = h
Keeps-unless_header (ok none) other h k = k
Keeps-unless_header (fail e) other h k = tt

pub Keeps-if :
    (b : Bool) (x y : Result Parser)
    → (b ≡ true → Keeps x)
    → (b ≡ false → Keeps y)
    → Keeps (if b then x else y)
Keeps-if true x y h k = h refl
Keeps-if false x y h k = k refl

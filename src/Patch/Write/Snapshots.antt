-- ===== src/Patch/Write/Snapshots.antt =====
-- internal/patch/apply.go: what the snapshot of the files has.
use uagent_harness.Prelude.{
  ℕ, ◌≡◌, ◌≢◌, refl, sym, subst, Bool, true, false, inl, inr, Option, none, some, List, [], ◌∷◌,
  ◌⊎◌, Text, text_eq, text_eq_iff, contains, arith, All, All-map, Exists, here, there, keep_if,
  Bool-cases,
}
use uagent_harness.Patch.Apply.{Reading, found, unreadable}
use uagent_harness.Patch.Write.{
  Stat, System, Original, absent_file, present_file, Snapshot, taken, not_taken, with_original,
  with_reading, snapshot_of, snapshot_loop,
}
use uagent_harness.Patch.Write.Restore.{written_paths}

module _ {ℓ} {World : Type ℓ} (sys : System World) (w : World) where
  abbrev pub KeptIf : Bool → Text → ℕ → List Original → Type 0
  KeptIf true p perm before =
      (text : Text) × (sys.read_file w p ≡ found text)
      × Exists (λ o. o ≡ present_file p text perm) before
  KeptIf false p perm before = Unit

  abbrev pub KeptFor : Option Stat → Text → List Original → Type 0
  KeptFor none p before = Exists (λ o. o ≡ absent_file p) before
  KeptFor (some s) p before = KeptIf s.is_regular p s.perm before

  -- The snapshot has what is to be put back at a path.
  abbrev pub Kept : Text → List Original → Type 0
  Kept p before = KeptFor (sys.stat w p) p before

  KeptIf-there :
      (b : Bool) (p : Text) (perm : ℕ) (o : Original) (before : List Original)
      → KeptIf b p perm before
      → KeptIf b p perm (o ∷ before)
  KeptIf-there true p perm o before (text, r, k) = (text, r, there k)
  KeptIf-there false p perm o before k = tt

  KeptFor-there :
      (s : Option Stat) (p : Text) (o : Original) (before : List Original)
      → KeptFor s p before
      → KeptFor s p (o ∷ before)
  KeptFor-there none p o before k = there k
  KeptFor-there (some s) p o before k = KeptIf-there s.is_regular p s.perm o before k

  module _ (P : Text → Type 0) where
    -- Paths of a kind, none seen before.
    abbrev pub IsNew : List Text → Original → Type 0
    IsNew seen o = P o.path × (contains seen o.path ≡ false)

    abbrev pub AreDistinct : List Original → Type 0
    AreDistinct [] = Unit
    AreDistinct (o ∷ before) = All (λ x. o.path ≢ x.path) before × AreDistinct before

    abbrev pub IsCovered : List Text → List Original → Text → Type 0
    IsCovered seen before p = (contains seen p ≡ true) ⊎ Kept p before

    abbrev pub IsGood : List Text → List Text → Snapshot → Type 0
    IsGood seen names (not_taken e) = Unit
    IsGood seen names (taken before) =
        All (IsNew seen) before × AreDistinct before × All (IsCovered seen before) names

    IsNew-seen :
        (seen : List Text) (p : Text) (o : Original)
        → IsNew (p ∷ seen) o
        → IsNew seen o × (p ≢ o.path)
    unfolding contains
    IsNew-seen seen p o (h, n) = (
      (h, ground (arith, n)),
      λ e. elim (Bool-cases (text_eq p o.path)) [
        | inl t ↦ absurd (ground (arith, n))
        | inr t ↦ cc (t, (text_eq_iff p o.path).1 e)
      ],
    )

    IsCovered-seen :
        (seen : List Text) (p q : Text) (before : List Original)
        → Kept p before
        → IsCovered (p ∷ seen) before q
        → IsCovered seen before q
    unfolding contains
    IsCovered-seen seen p q before k (inr c) = inr c
    IsCovered-seen seen p q before k (inl c) = elim (Bool-cases (text_eq p q)) [
      | inl t ↦ inr (subst (λ x. Kept x before) ((text_eq_iff p q).0 t) k)
      | inr t ↦ inl (ground (arith, c))
    ]

    without-IsGood :
        (seen names : List Text) (p : Text) (before : List Original)
        → Kept p before
        → IsGood (p ∷ seen) names (taken before)
        → IsGood seen (p ∷ names) (taken before)
    without-IsGood seen names p before k (new, distinct, covered) = (
      All-map _ _ before (λ o h. (IsNew-seen seen p o h).0) new,
      distinct,
      (inr k, All-map _ _ names (λ q c. IsCovered-seen seen p q before k c) covered),
    )

    with_original-IsGood :
        (seen names : List Text) (o : Original) (rest : Snapshot)
        → P o.path
        → contains seen o.path ≡ false
        → ((before : List Original) → Kept o.path (o ∷ before))
        → IsGood (o.path ∷ seen) names rest
        → IsGood seen (o.path ∷ names) (with_original o rest)
    with_original-IsGood seen names o (not_taken e) p n k g = tt
    with_original-IsGood seen names o (taken before) p n k (new, distinct, covered) = (
      ((p, n), All-map _ _ before (λ x h. (IsNew-seen seen o.path x h).0) new),
      (All-map _ _ before (λ x h. (IsNew-seen seen o.path x h).1) new, distinct),
      (
        inr (k before),
        All-map _ _ names
            (λ q c. IsCovered-seen seen o.path q (o ∷ before) (k before) (covered_there q c))
            covered,
      ),
    )
      where
        covered_there :
            (q : Text)
            → IsCovered (o.path ∷ seen) before q
            → IsCovered (o.path ∷ seen) (o ∷ before) q
        covered_there q (inl c) = inl c
        covered_there q (inr c) = inr (KeptFor-there (sys.stat w q) q o before c)

    skipped-IsGood :
        (seen names : List Text) (p : Text) (rest : Snapshot)
        → ((before : List Original) → Kept p before)
        → IsGood (p ∷ seen) names rest
        → IsGood seen (p ∷ names) rest
    skipped-IsGood seen names p (not_taken e) k g = tt
    skipped-IsGood seen names p (taken before) k g = without-IsGood seen names p before (k before) g

    module _ (seen names : List Text) (p : Text) (rest : Snapshot) (hp : P p)
        (new : contains seen p ≡ false) (g : IsGood (p ∷ seen) names rest) where
      with_reading-IsGood :
          (perm : ℕ) (r : Reading)
          → ((text : Text) (before : List Original)
              → sys.read_file w p ≡ found text
              → Kept p (present_file p text perm ∷ before))
          → sys.read_file w p ≡ r
          → IsGood seen (p ∷ names) (with_reading p perm rest r)
      with_reading-IsGood perm (unreadable e) s h = tt
      with_reading-IsGood perm (found text) s h =
          with_original-IsGood seen names (present_file p text perm) rest hp new
            (λ before. s text before h) g

      snapshot_of-IsGood :
          (s : Option Stat)
          → sys.stat w p ≡ s
          → IsGood seen (p ∷ names) (snapshot_of sys w p rest s)
      snapshot_of-IsGood none e =
          with_original-IsGood seen names (absent_file p) rest hp new
            (λ before. subst (λ x. KeptFor x p (absent_file p ∷ before)) (sym e) (here refl)) g
      snapshot_of-IsGood (some s) e = elim (Bool-cases s.is_regular) [
        | inl b ↦ rw b (
            with_reading-IsGood s.perm (sys.read_file w p)
              (λ text before h.
                subst (λ x. KeptFor x p (present_file p text s.perm ∷ before)) (sym e)
                  (subst (λ x. KeptIf x p s.perm (present_file p text s.perm ∷ before)) (sym b)
                    (text, h, here refl)))
              refl)
        | inr b ↦ rw b (
            skipped-IsGood seen names p rest
              (λ before.
                subst (λ x. KeptFor x p before) (sym e)
                  (subst (λ x. KeptIf x p s.perm before) (sym b) tt))
              g)
      ]

    seen-IsGood :
        (seen names : List Text) (p : Text) (rest : Snapshot)
        → contains seen p ≡ true
        → IsGood seen names rest
        → IsGood seen (p ∷ names) rest
    seen-IsGood seen names p (not_taken e) c g = tt
    seen-IsGood seen names p (taken before) c (new, distinct, covered) =
        (new, distinct, (inl c, covered))

    pub snapshot_loop-IsGood :
        (seen paths : List Text)
        → All P (written_paths paths)
        → IsGood seen (written_paths paths) (snapshot_loop sys w seen paths)
    unfolding snapshot_loop keep_if
    snapshot_loop-IsGood seen [] h = (tt, tt, tt)
    snapshot_loop-IsGood seen (p ∷ paths) h = elim (Bool-cases (text_eq p [])) [
      | inl e ↦ rw e (snapshot_loop-IsGood seen paths (rw e at h))
      | inr e ↦ elim (Bool-cases (contains seen p)) [
        | inl c ↦
            rw (e, c)
              (seen-IsGood seen (written_paths paths) p (snapshot_loop sys w seen paths) c
                (snapshot_loop-IsGood seen paths (rw e at h).1))
        | inr c ↦
            rw (e, c)
              (snapshot_of-IsGood seen (written_paths paths) p
                (snapshot_loop sys w (p ∷ seen) paths) (rw e at h).0 c
                (snapshot_loop-IsGood (p ∷ seen) paths (rw e at h).1) (sys.stat w p) refl)
      ]
    ]

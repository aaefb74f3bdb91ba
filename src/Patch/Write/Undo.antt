-- ===== src/Patch/Write/Undo.antt =====
-- internal/patch/apply.go: a patch that fails on the way leaves the files as they were.
use uagent_harness.Prelude.{
  ℕ, ◌≡◌, ◌≢◌, refl, sym, ap, subst, Bool, true, false, inl, inr, Option, none, some, List, [], ◌∷◌,
  Text, contains, All, All-map, All-Exists, All-Exists_self, Exists,
}
use uagent_harness.Patch.Apply.{found, Change}
use uagent_harness.Patch.Write.{
  Stat, System, WriteError, Done, Original, dir_of, touched, absent_file, present_file, Snapshot,
  taken, not_taken, Outcome, applied, refused, undone, snapshot, restore, undo, write_change,
  write_loop, write_after, write_all,
}
use uagent_harness.Patch.Write.Restore.{
  above, written_paths, AreApart, Laws, Restored, IsFree, AreFree, restore-Restored,
}
use uagent_harness.Patch.Write.Snapshots.{
  KeptIf, KeptFor, IsNew, AreDistinct, IsCovered, IsGood, snapshot_loop-IsGood,
}

module _ {ℓ} {World : Type ℓ} (sys : System World) where
  BackIf : World → World → Bool → Text → Type 0
  BackIf w next true p =
      (text : Text) × (sys.read_file w p ≡ found text) × (sys.read_file next p ≡ found text)
  BackIf w next false p = Unit

  BackFor : World → World → Option Stat → Text → Type 0
  BackFor w next none p = sys.lstat next p ≡ false
  BackFor w next (some s) p = BackIf w next s.is_regular p

  -- A regular file reads as before, and where no file was, there is none. Of a directory and the
  -- like it says nothing.
  pub IsBack : World → World → Text → Type 0
  IsBack w next p = BackFor w next (sys.stat w p) p

  module _ (w next : World) (before : List Original)
      (back : All (λ o. Restored sys next o.absent o) before) where
    Restored-has : (o : Original) → Exists (λ x. x ≡ o) before → Restored sys next o.absent o
    Restored-has o e =
        All-Exists (λ x. Restored sys next x.absent x) (λ x. x ≡ o) before
          (λ x r h. subst (λ y. Restored sys next y.absent y) h r) back e

    KeptIf-Back :
        (b : Bool) (p : Text) (perm : ℕ) → KeptIf sys w b p perm before → BackIf w next b p
    unfolding BackIf
    KeptIf-Back true p perm (text, r, e) = (text, r, Restored-has (present_file p text perm) e)
    KeptIf-Back false p perm k = tt

    KeptFor-Back : (s : Option Stat) (p : Text) → KeptFor sys w s p before → BackFor w next s p
    unfolding BackFor
    KeptFor-Back none p e = Restored-has (absent_file p) e
    KeptFor-Back (some s) p k = KeptIf-Back s.is_regular p s.perm k

  module _ (w : World) (P : Text → Type 0)
      (apart : (p q : Text) → P p → P q → above q (dir_of p) ≡ false) where
    AreDistinct-AreFree :
        (seen : List Text) (before : List Original)
        → All (IsNew sys w P seen) before
        → AreDistinct sys w P before
        → AreFree sys before
    AreDistinct-AreFree seen [] new d = tt
    AreDistinct-AreFree seen (o ∷ before) ((p, n), new) (d, ds) =
        (frees before new d, AreDistinct-AreFree seen before new ds)
      where
        frees :
            (rest : List Original)
            → All (IsNew sys w P seen) rest
            → All (λ x. o.path ≢ x.path) rest
            → All (IsFree sys o.path) rest
        frees [] a b = tt
        frees (x ∷ rest) ((q, m), a) (b, bs) =
            ((λ e. b (sym e), apart x.path o.path q p), frees rest a bs)

  -- An outcome that was undone comes from putting the files back in some world.
  Undoes : List Original → Outcome World → Type ℓ
  Undoes before (applied w) = Unit
  Undoes before (refused w e) = Unit
  Undoes before (undone next e errors) = (v : World) × (restore sys before v ≡ (next, errors))

  write_loop-Undoes :
      (before : List Original) (changes : List Change) (w : World)
      → Undoes before (write_loop sys before changes w)
  unfolding write_loop Undoes
  write_loop-Undoes before [] w = tt
  write_loop-Undoes before (c ∷ changes) w =
      step (λ v. write_loop-Undoes before changes v) (write_change sys c w)
    where
      step :
          ((v : World) → Undoes before (write_loop sys before changes v))
          → (d : Done World)
          → Undoes before (elim d.1 [
            | some e ↦ undo sys before e d.0
            | none ↦ write_loop sys before changes d.0
          ])
      step rest (v, some e) = (v, refl)
      step rest (v, none) = rest v

  module _ (laws : Laws sys) (changes : List Change) (w next : World) (e : WriteError) where
    abbrev names : List Text
    names = written_paths (touched changes)

    abbrev IsNamed : Text → Type 0
    IsNamed p = Exists (λ x. x ≡ p) names

    named-apart : AreApart names → (p q : Text) → IsNamed p → IsNamed q → above q (dir_of p) ≡ false
    named-apart apart p q np nq =
        All-Exists (λ x. above x (dir_of p) ≡ false) (λ x. x ≡ q) names
          (λ x a h. subst (λ y. above y (dir_of p) ≡ false) h a)
          (All-Exists (λ y. All (λ x. above x (dir_of y) ≡ false) names) (λ y. y ≡ p) names
            (λ y a h. subst (λ z. All (λ x. above x (dir_of z) ≡ false) names) h a) apart np)
          nq

    taken-IsBack :
        (before : List Original) (v : World)
        → AreApart names
        → IsGood sys w IsNamed [] names (taken before)
        → restore sys before v ≡ (next, [])
        → All (IsBack w next) names
    unfolding IsBack contains
    taken-IsBack before v apart (new, distinct, covered) h =
        let free = AreDistinct-AreFree w IsNamed (named-apart apart) [] before new distinct in
        let back =
          subst (λ (n : World). All (λ o. Restored sys n o.absent o) before)
            (ap (λ (x : World × List WriteError). x.0) h)
            (restore-Restored sys laws before v free
              (ap (λ (x : World × List WriteError). x.1) h)) in
        All-map _ _ names (is_back back) covered
      where
        is_back :
            All (λ o. Restored sys next o.absent o) before
            → (p : Text) → IsCovered sys w IsNamed [] before p
            → IsBack w next p
        is_back back p (inl c) = cc
        is_back back p (inr k) = KeptFor-Back w next before back (sys.stat w p) p k

    write_after-IsBack :
        (s : Snapshot)
        → AreApart names
        → IsGood sys w IsNamed [] names s
        → write_after sys changes w s ≡ undone next e []
        → All (IsBack w next) names
    unfolding Undoes
    write_after-IsBack (not_taken f) apart g h = cc
    write_after-IsBack (taken before) apart g h =
        let (v, k) = undone_from before h in taken-IsBack before v apart g k
      where
        undone_from :
            (before : List Original)
            → write_loop sys before changes w ≡ undone next e []
            → (v : World) × (restore sys before v ≡ (next, []))
        undone_from before h = subst (Undoes before) h (write_loop-Undoes before changes w)

-- When a change fails and putting the files back does not fail in turn, each file that the changes
-- touch is as it was before, however far they had come: the ones that were there read the same, and
-- no other is there. The calls are those of a system without links, and no path that is touched
-- lies on the way to another one.
pub write_all-IsBack {ℓ} :
    {World : Type ℓ} (sys : System World) (laws : Laws sys) (changes : List Change) (w next : World)
    (e : WriteError)
    → AreApart (written_paths (touched changes))
    → write_all sys changes w ≡ undone next e []
    → All (IsBack sys w next) (written_paths (touched changes))
unfolding write_all snapshot
write_all-IsBack sys laws changes w next e apart h =
    let named = written_paths (touched changes) in
    write_after-IsBack sys laws changes w next e (snapshot sys changes w) apart
      (snapshot_loop-IsGood sys w (λ p. Exists (λ x. x ≡ p) named) [] (touched changes)
        (All-Exists_self named))
      h

-- ===== src/Patch/Write/Restore.antt =====
-- internal/patch/apply.go: files put back one after another are all back.
use uagent_harness.Prelude.{
  ℕ, ◌≡◌, ◌≢◌, refl, ◌∙◌, sym, subst, Bool, true, false, not, inl, inr, none, some, List, [], ◌∷◌,
  ◌++◌, ◌||◌, Text, codes, text_eq, has_prefix, All, keep_if, Bool-cases,
}
use uagent_harness.Patch.Apply.{found}
use uagent_harness.Patch.Write.{
  Attempt, System, WriteError, Done, Original, dir_of, one_error, failed_as, after_parents,
  write_file, restored_as, take_away, restore_one, restore,
}

-- A path is a directory, or one above it.
abbrev pub above : Text → Text → Bool
above p d = text_eq p d || has_prefix d (p ++ codes "/")

-- The paths that the changes write, without the absent ones.
abbrev pub written_paths : List Text → List Text
written_paths paths = keep_if (λ p. not (text_eq p [])) paths

-- No path of the list lies on the way to another one.
abbrev pub AreApart : List Text → Type 0
AreApart paths = All (λ p. All (λ q. above q (dir_of p) ≡ false) paths) paths

module _ {ℓ} {World : Type ℓ} (sys : System World) where
  -- The file at a path is there in both worlds or in none, and reads the same.
  abbrev pub Same : World → World → Text → Type 0
  Same next w p = (sys.lstat next p ≡ sys.lstat w p) × (sys.read_file next p ≡ sys.read_file w p)

  -- What the calls do, without links: a removal and a write that succeed do what they say, and a call,
  -- failed or not, leaves the other paths alone; missing directories are made on the way only.
  pub record Laws : Type ℓ where
    pub removed :
        (p : Text) (w next : World) → sys.remove p w ≡ (next, none) → sys.lstat next p ≡ false
    pub written :
        (p text : Text) (perm : ℕ) (w next : World)
        → sys.write_bytes p text perm w ≡ (next, none)
        → sys.read_file next p ≡ found text
    pub remove_alone : (p q : Text) (w : World) → p ≢ q → Same (sys.remove p w).0 w q
    pub write_alone :
        (p text : Text) (perm : ℕ) (q : Text) (w : World)
        → p ≢ q
        → Same (sys.write_bytes p text perm w).0 w q
    pub mkdir_alone : (d q : Text) (w : World) → above q d ≡ false → Same (sys.mkdir_all d w).0 w q

  abbrev pub Restored : World → Bool → Original → Type 0
  Restored w true o = sys.lstat w o.path ≡ false
  Restored w false o = sys.read_file w o.path ≡ found o.text

  -- A path that putting an original back leaves alone.
  abbrev pub IsFree : Text → Original → Type 0
  IsFree q o = (o.path ≢ q) × (above q (dir_of o.path) ≡ false)

  abbrev pub AreFree : List Original → Type 0
  AreFree [] = Unit
  AreFree (o ∷ before) = All (IsFree o.path) before × AreFree before

  Same-trans : (a b c : World) (p : Text) → Same a b p → Same b c p → Same a c p
  Same-trans a b c p (l, r) (m, s) = (l ∙ m, r ∙ s)

  failed_as-Same :
      (f : Text → WriteError) (a : Attempt World) (w : World) (q : Text)
      → Same a.0 w q
      → Same (failed_as sys f a).0 w q
  failed_as-Same f (next, none) w q h = h
  failed_as-Same f (next, some e) w q h = h

  restored_as-Same :
      (path : Text) (d : Done World) (w : World) (q : Text)
      → Same d.0 w q
      → Same (restored_as sys path d).0 w q
  restored_as-Same path (next, none) w q h = h
  restored_as-Same path (next, some e) w q h = h

  -- Where the step succeeded, the file is at its path.
  abbrev HasFile : Text → Text → Done World → Type 0
  HasFile path text (w, none) = sys.read_file w path ≡ found text
  HasFile path text (w, some e) = Unit

  abbrev IsBackNow : Original → Done World → Type 0
  IsBackNow o (w, none) = Restored w o.absent o
  IsBackNow o (w, some e) = Unit

  module _ (laws : Laws) where
    after_parents-Same :
        (path text : Text) (perm : ℕ) (a : Attempt World) (w : World) (q : Text)
        → path ≢ q
        → Same a.0 w q
        → Same (after_parents sys path text perm a).0 w q
    after_parents-Same path text perm (next, some e) w q n h = h
    after_parents-Same path text perm (next, none) w q n h =
        failed_as-Same _ (sys.write_bytes path text perm next) w q
          (Same-trans _ next w q (laws.write_alone path text perm q next n) h)

    after_parents-HasFile :
        (path text : Text) (perm : ℕ) (a : Attempt World)
        → HasFile path text (after_parents sys path text perm a)
    after_parents-HasFile path text perm (next, some e) = tt
    after_parents-HasFile path text perm (next, none) =
        wrote (sys.write_bytes path text perm next) refl
      where
        wrote :
            (a : Attempt World)
            → sys.write_bytes path text perm next ≡ a
            → HasFile path text (failed_as sys (λ e. WriteError.write_failed path e) a)
        wrote (last, none) h = laws.written path text perm next last h
        wrote (last, some e) h = tt

    restored_as-IsBackNow :
        (o : Original) (d : Done World)
        → o.absent ≡ false
        → HasFile o.path o.text d
        → IsBackNow o (restored_as sys o.path d)
    restored_as-IsBackNow o (w, none) e h = subst (λ b. Restored w b o) (sym e) h
    restored_as-IsBackNow o (w, some f) e h = tt

    take_away-IsBackNow :
        (o : Original) (w : World) (b : Bool)
        → o.absent ≡ true
        → sys.lstat w o.path ≡ b
        → IsBackNow o (take_away sys o.path b w)
    take_away-IsBackNow o w false e h = subst (λ b. Restored w b o) (sym e) h
    take_away-IsBackNow o w true e h = took (sys.remove o.path w) refl
      where
        took :
            (a : Attempt World)
            → sys.remove o.path w ≡ a
            → IsBackNow o (failed_as sys (λ x. WriteError.not_removed o.path x) a)
        took (last, none) k = subst (λ b. Restored last b o) (sym e) (laws.removed o.path w last k)
        took (last, some x) k = tt

    restore_one-IsBackNow : (o : Original) (w : World) → IsBackNow o (restore_one sys o w)
    unfolding restore_one write_file
    restore_one-IsBackNow o w = elim (Bool-cases o.absent) [
      | inl e ↦ subst (IsBackNow o) (rw e) (take_away-IsBackNow o w (sys.lstat w o.path) e refl)
      | inr e ↦ subst (IsBackNow o) (rw e) (
          restored_as-IsBackNow o (write_file sys o.path o.text o.perm w) e
            (after_parents-HasFile o.path o.text o.perm (sys.mkdir_all (dir_of o.path) w)))
    ]

    take_away-Same :
        (p : Text) (b : Bool) (w : World) (q : Text) → p ≢ q → Same (take_away sys p b w).0 w q
    take_away-Same p false w q n = (refl, refl)
    take_away-Same p true w q n = failed_as-Same _ (sys.remove p w) w q (laws.remove_alone p q w n)

    restore_one-Same :
        (o : Original) (w : World) (q : Text) → IsFree q o → Same (restore_one sys o w).0 w q
    unfolding restore_one write_file
    restore_one-Same o w q (n, free) = elim (Bool-cases o.absent) [
      | inl e ↦ rw e (take_away-Same o.path (sys.lstat w o.path) w q n)
      | inr e ↦ rw e (
          restored_as-Same o.path (write_file sys o.path o.text o.perm w) w q (
            after_parents-Same o.path o.text o.perm _ w q n
              (laws.mkdir_alone (dir_of o.path) q w free)))
    ]

    restore-Same :
        (before : List Original) (w : World) (q : Text)
        → All (IsFree q) before
        → Same (restore sys before w).0 w q
    unfolding restore
    restore-Same [] w q h = (refl, refl)
    restore-Same (o ∷ before) w q (h, hs) =
        Same-trans _ (restore_one sys o w).0 w q (restore-Same before (restore_one sys o w).0 q hs)
          (restore_one-Same o w q h)

    Restored-Same :
        (o : Original) (b : Bool) (next w : World)
        → Same next w o.path
        → Restored w b o
        → Restored next b o
    Restored-Same o true next w (l, r) h = l ∙ h
    Restored-Same o false next w (l, r) h = r ∙ h

    one_error-none :
        (d : Done World) (errors : List WriteError) (o : Original)
        → (one_error d.1 ++ errors) ≡ []
        → IsBackNow o d
        → Restored d.0 o.absent o × (errors ≡ [])
    one_error-none (w, none) errors o e h = (h, e)
    one_error-none (w, some x) errors o e h = cc

    pub restore-Restored :
        (before : List Original) (w : World)
        → AreFree before
        → (restore sys before w).1 ≡ []
        → All (λ o. Restored (restore sys before w).0 o.absent o) before
    unfolding restore
    restore-Restored [] w f e = tt
    restore-Restored (o ∷ before) w (f, fs) e =
        let next = (restore_one sys o w).0 in
        let (back, rest) = one_error-none (restore_one sys o w) _ o e (restore_one-IsBackNow o w) in
        (
          Restored-Same o o.absent (restore sys before next).0 next
              (restore-Same before next o.path f) back,
          restore-Restored before next fs rest,
        )

-- ===== src/Patch/Apply/Replay.antt =====
-- internal/patch/apply.go: the computed changes, written one after another, meet the files that
-- they were computed from.
use uagent_harness.Prelude.{
  ℕ, ◌≡◌, ◌≢◌, refl, ◌∙◌, sym, subst, Bool, true, false, inl, inr, Option, none, some, List, [],
  ◌∷◌, Text, text_eq, text_eq_iff, All, Bool-cases, has_prefix, codes,
}
use uagent_harness.Patch.Parse.{Op, add, delete, update, Hunk}
use uagent_harness.Patch.Update
use uagent_harness.Patch.Update.{updated}
use uagent_harness.Patch.Apply.{
  clean_text, clean, join_path, resolve, Reading, found, unreadable, Disk, not_exist, Overlay,
  entry, read, Change, Result, ok, fail, ◌>>=◌, change_of, Step, deleted, put, after_update,
  updated_file, step_for, compute_step, compute_loop, compute, with_file, write_update, write_for,
  write,
}

clean_text-IsNonempty : (rooted : Bool) (s : Text) → clean_text rooted s ≢ []
clean_text-IsNonempty true s h = cc
clean_text-IsNonempty false [] h = cc
clean_text-IsNonempty false (c ∷ s) h = cc

clean-IsNonempty : (s : Text) → clean s ≢ []
unfolding clean
clean-IsNonempty s = clean_text-IsNonempty (has_prefix s (codes "/")) _

join_path-IsNonempty : (dir : Text) (c : ℕ) (path : Text) → join_path dir (c ∷ path) ≢ []
unfolding join_path
join_path-IsNonempty [] c path = clean-IsNonempty (c ∷ path)
join_path-IsNonempty (d ∷ dir) c path = clean-IsNonempty _

resolve-IsNonempty : (cwd : Text) (c : ℕ) (path : Text) → resolve cwd (c ∷ path) ≢ []
unfolding resolve
resolve-IsNonempty cwd c path = elim (Bool-cases (has_prefix (c ∷ path) (codes "/"))) [
  | inl e ↦ rw e (clean-IsNonempty (c ∷ path))
  | inr e ↦ rw e (join_path-IsNonempty cwd c path)
]

-- The files of a disk are those that the overlay shows.
abbrev Agrees : Disk → Disk → Overlay → Type 0
Agrees files disk changed = (path : Text) → files path ≡ read disk changed path

Agrees-with_file :
    (files disk : Disk) (changed : Overlay) (path : Text) (e : Option Text)
    → Agrees files disk changed
    → Agrees (with_file path (entry e) files) disk ((path, e) ∷ changed)
unfolding read
Agrees-with_file files disk changed path e h q = elim (Bool-cases (text_eq path q)) [
  | inl t ↦ rw t
  | inr t ↦ rw t (h q)
]

-- A write to one path and one to another can change places.
with_file-swap :
    (files : Disk) (a b : Text) (r s : Reading) (q : Text)
    → a ≢ b
    → with_file b s (with_file a r files) q ≡ with_file a r (with_file b s files) q
with_file-swap files a b r s q n = elim (Bool-cases (text_eq a q)) [
  | inl t ↦ elim (Bool-cases (text_eq b q)) [
    | inl u ↦ absurd (n ((text_eq_iff a q).0 t ∙ sym ((text_eq_iff b q).0 u)))
    | inr u ↦ rw (t, u)
  ]
  | inr t ↦ rw t
]

write_update-Agrees :
    (files disk : Disk) (changed : Overlay) (c : Change) (path : Text)
    → path ≢ []
    → path ≢ c.abs
    → Agrees files disk changed
    → Agrees (write_update c path files) disk ((path, some c.new) ∷ (c.abs, none) ∷ changed)
write_update-Agrees files disk changed c [] n m h = absurd (n refl)
write_update-Agrees files disk changed c (d ∷ path) n m h = λ q.
    with_file-swap files (d ∷ path) c.abs (found c.new) (unreadable not_exist) q m
    ∙ Agrees-with_file (with_file c.abs (unreadable not_exist) files) disk ((c.abs, none) ∷ changed)
        (d ∷ path) (some c.new) (Agrees-with_file files disk changed c.abs none h) q

-- The file that a change deletes or updates holds what the change says it held.
abbrev pub HoldsFor : Op → Change → Disk → Type 0
HoldsFor add c files = Unit
HoldsFor delete c files = files c.abs ≡ found c.old
HoldsFor update c files = files c.abs ≡ found c.old

abbrev GoodStep : Hunk → Op → Disk → Disk → Result Step → Type 0
GoodStep h o files disk (fail e) = Unit
GoodStep h o files disk (ok (c, changed)) =
    (c.op ≡ h.op)
    × (c.move_abs ≢ c.abs → HoldsFor o c files × Agrees (write_for o c files) disk changed)

module _ (cwd : Text) (h : Hunk) (files disk : Disk) (changed : Overlay)
    (agree : Agrees files disk changed) where
  deleted-GoodStep :
      (r : Reading)
      → read disk changed (change_of cwd h).abs ≡ r
      → GoodStep h delete files disk (deleted (change_of cwd h) changed r)
  deleted-GoodStep (unreadable e) k = tt
  deleted-GoodStep (found old) k = (
    refl,
    λ _. (
      agree (resolve cwd h.path) ∙ k,
      Agrees-with_file files disk changed (resolve cwd h.path) none agree,
    ),
  )

  put-GoodStep :
      (move old new : Text)
      → read disk changed (change_of cwd h).abs ≡ found old
      → GoodStep h update files disk
          (ok (put cwd move (record (change_of cwd h) { old = old; new = new }) changed))
  put-GoodStep [] old new k = (
    refl,
    λ _. (
      agree (resolve cwd h.path) ∙ k,
      Agrees-with_file files disk changed (resolve cwd h.path) (some new) agree,
    ),
  )
  put-GoodStep (d ∷ move) old new k = (
    refl,
    λ n. (
      agree (resolve cwd h.path) ∙ k,
      write_update-Agrees files disk changed (record (change_of cwd h) { old = old; new = new })
          (resolve cwd (d ∷ move)) (resolve-IsNonempty cwd d move) n agree,
    ),
  )

  after_update-GoodStep :
      (old : Text) (u : Update.Result Text)
      → read disk changed (change_of cwd h).abs ≡ found old
      → GoodStep h update files disk (after_update cwd h (change_of cwd h) changed old u)
  after_update-GoodStep old (Update.fail e) k = tt
  after_update-GoodStep old (Update.ok new) k = put-GoodStep h.move_path old new k

  updated_file-GoodStep :
      (r : Reading)
      → read disk changed (change_of cwd h).abs ≡ r
      → GoodStep h update files disk (updated_file cwd h (change_of cwd h) changed r)
  updated_file-GoodStep (unreadable e) k = tt
  updated_file-GoodStep (found old) k = after_update-GoodStep old (updated old h.chunks) k

  step_for-GoodStep :
      (o : Op) → GoodStep h o files disk (step_for o cwd disk changed h (change_of cwd h))
  step_for-GoodStep add = (
    refl,
    λ _. (tt, Agrees-with_file files disk changed (resolve cwd h.path) (some h.contents) agree),
  )
  step_for-GoodStep delete = deleted-GoodStep (read disk changed (resolve cwd h.path)) refl
  step_for-GoodStep update = updated_file-GoodStep (read disk changed (resolve cwd h.path)) refl

-- Written in order, each change finds the file that it deletes or updates with the text that the
-- change was computed from.
abbrev pub Replays : List Change → Disk → Type 0
Replays [] files = Unit
Replays (c ∷ changes) files = HoldsFor c.op c files × Replays changes (write c files)

-- No file is moved to the path that it has.
abbrev pub MovesAway : Change → Type 0
MovesAway c = c.move_abs ≢ c.abs

abbrev GoodChanges : Disk → Result (List Change) → Type 0
GoodChanges files (fail e) = Unit
GoodChanges files (ok changes) = All MovesAway changes → Replays changes files

first-GoodChanges :
    (h : Hunk) (files disk : Disk) (c : Change) (changed : Overlay) (r : Result (List Change))
    → GoodStep h h.op files disk (ok (c, changed))
    → ((next : Disk) → Agrees next disk changed → GoodChanges next r)
    → GoodChanges files (r >>= λ rest. ok (c ∷ rest))
unfolding write
first-GoodChanges h files disk c changed (fail e) g k = tt
first-GoodChanges h files disk c changed (ok rest) (o, g) k = λ (m, ms).
    let (holds, agree) = g m in
    (
      subst (λ x. HoldsFor x c files) (sym o) holds,
      subst (λ x. Replays rest (write_for x c files)) (sym o) (k (write_for h.op c files) agree ms),
    )

step-GoodChanges :
    (cwd : Text) (h : Hunk) (files disk : Disk) (hunks : List Hunk) (r : Result Step)
    → GoodStep h h.op files disk r
    → ((changed : Overlay) (next : Disk)
        → Agrees next disk changed
        → GoodChanges next (compute_loop cwd disk changed hunks))
    → GoodChanges files
        (r >>= λ step. (compute_loop cwd disk step.1 hunks >>= λ rest. ok (step.0 ∷ rest)))
step-GoodChanges cwd h files disk hunks (fail e) g k = tt
step-GoodChanges cwd h files disk hunks (ok (c, changed)) g k =
    first-GoodChanges h files disk c changed (compute_loop cwd disk changed hunks) g (k changed)

compute_loop-GoodChanges :
    (cwd : Text) (disk : Disk) (hunks : List Hunk) (changed : Overlay) (files : Disk)
    → Agrees files disk changed
    → GoodChanges files (compute_loop cwd disk changed hunks)
unfolding compute_loop compute_step
compute_loop-GoodChanges cwd disk [] changed files a = λ _. tt
compute_loop-GoodChanges cwd disk (h ∷ hunks) changed files a =
    step-GoodChanges cwd h files disk hunks _ (step_for-GoodStep cwd h files disk changed a h.op)
      (λ changed' next b. compute_loop-GoodChanges cwd disk hunks changed' next b)

compute-GoodChanges :
    (cwd : Text) (disk : Disk) (hunks : List Hunk) → GoodChanges disk (compute cwd disk hunks)
unfolding compute read
compute-GoodChanges cwd disk [] = tt
compute-GoodChanges cwd disk (h ∷ hunks) =
    compute_loop-GoodChanges cwd disk (h ∷ hunks) [] disk (λ path. refl)

-- The changes that `compute` gives can be written in order, if no file is moved to the path that it
-- has: each finds the file that it deletes or updates with the text that it was computed from.
pub compute-Replays :
    (cwd : Text) (disk : Disk) (hunks : List Hunk) (changes : List Change)
    → compute cwd disk hunks ≡ ok changes
    → All MovesAway changes
    → Replays changes disk
compute-Replays cwd disk hunks changes h m =
    let g : (r : Result (List Change))
        → r ≡ ok changes
        → GoodChanges disk r
        → Replays changes disk =
      λ r e k. subst (GoodChanges disk) e k m in
    g (compute cwd disk hunks) h (compute-GoodChanges cwd disk hunks)

-- ===== src/Patch/Write.antt =====
-- internal/patch/apply.go: the changes on a disk whose calls can fail, and what is put back then.
-- The operating system's calls are the fields of a parameter: a failed call also has a world after
-- it. File modes are their permission bits.
pub mod Restore
pub mod Snapshots
pub mod Undo
mod Samples
use uagent_harness.Prelude.{
  ℕ, Bool, true, false, Option, none, some, List, [], ◌∷◌, ◌++◌, ◌||◌, ◌==◌, if◌then◌else◌, Text,
  codes, text_eq, contains,
}
use uagent_harness.Patch.Parse.{Op, add, delete, update}
use uagent_harness.Patch.Apply.{clean, Reading, found, unreadable, Change}

-- What os.Stat tells: whether the file is a regular one, and its permission bits.
pub record Stat : Type 0 where
  pub is_regular : Bool
  pub perm : ℕ

-- A world, and the error's text when the call failed.
abbrev pub Attempt {ℓ} : Type ℓ → Type ℓ
Attempt A = A × Option Text

pub record System {ℓ} (World : Type ℓ) : Type ℓ where
  pub stat : World → Text → Option Stat
  pub lstat : World → Text → Bool
  pub read_file : World → Text → Reading
  pub mkdir_all : Text → World → Attempt World
  pub write_bytes : Text → Text → ℕ → World → Attempt World
  pub remove : Text → World → Attempt World

-- What went wrong, with the path and the system's error.
pub data WriteError : Type 0 where
  read_failed : Text → Text → WriteError
  parents_failed : Text → Text → WriteError
  write_failed : Text → Text → WriteError
  delete_failed : Text → Text → WriteError
  original_stays : Text → Text → WriteError
  not_removed : Text → Text → WriteError
  not_restored : Text → WriteError → WriteError

-- A world, and the error when a step failed.
abbrev pub Done {ℓ} : Type ℓ → Type ℓ
Done A = A × Option WriteError

-- A file as it was before.
pub record Original : Type 0 where
  pub path : Text
  pub absent : Bool
  pub text : Text
  pub perm : ℕ

-- The text through the last slash.
unfoldable pub to_slash : Text → Text
to_slash [] = []
to_slash (c ∷ s) =
    let rest = to_slash s in
    if text_eq rest [] then (if c == b'/' then c ∷ [] else []) else c ∷ rest

-- filepath.Dir
unfoldable pub dir_of : Text → Text
dir_of path = clean (to_slash path)

abbrev pub default_perm : ℕ
default_perm = 420

abbrev pub perm_of : Option Stat → ℕ
perm_of none = default_perm
perm_of (some s) = s.perm

-- The paths of the changes, the ones that they move to too.
unfoldable pub touched : List Change → List Text
touched [] = []
touched (c ∷ changes) = c.abs ∷ c.move_abs ∷ touched changes

abbrev pub absent_file : Text → Original
absent_file path = record { path = path; absent = true; text = []; perm = 0 }

abbrev pub present_file : Text → Text → ℕ → Original
present_file path text perm = record { path = path; absent = false; text = text; perm = perm }

-- The files before, or the one that could not be read.
pub data Snapshot : Type 0 where
  taken : List Original → Snapshot
  not_taken : WriteError → Snapshot

abbrev pub with_original : Original → Snapshot → Snapshot
with_original o (taken before) = taken (o ∷ before)
with_original o (not_taken e) = not_taken e

abbrev pub with_reading : Text → ℕ → Snapshot → Reading → Snapshot
with_reading path perm rest (unreadable e) = not_taken (read_failed path e)
with_reading path perm rest (found text) = with_original (present_file path text perm) rest

pub data Outcome {ℓ} (World : Type ℓ) : Type ℓ where
  applied : World → Outcome World
  refused : World → WriteError → Outcome World
  undone : World → WriteError → List WriteError → Outcome World

abbrev pub one_error : Option WriteError → List WriteError
one_error none = []
one_error (some e) = e ∷ []

module _ {ℓ} {World : Type ℓ} (sys : System World) where
  abbrev pub failed_as : (Text → WriteError) → Attempt World → Done World
  failed_as f (w, none) = (w, none)
  failed_as f (w, some e) = (w, some (f e))

  abbrev pub after_parents : Text → Text → ℕ → Attempt World → Done World
  after_parents path text perm (w, some e) = (w, some (parents_failed path e))
  after_parents path text perm (w, none) =
      failed_as (write_failed path) (sys.write_bytes path text perm w)

  unfoldable pub write_file : Text → Text → ℕ → World → Done World
  write_file path text perm w = after_parents path text perm (sys.mkdir_all (dir_of path) w)

  abbrev pub after_move : Text → Done World → Done World
  after_move path (w, some e) = (w, some e)
  after_move path (w, none) = failed_as (original_stays path) (sys.remove path w)

  abbrev pub update_to : Text → Change → World → Done World
  update_to [] c w = write_file c.abs c.new (perm_of (sys.stat w c.abs)) w
  update_to (d ∷ move) c w =
      after_move c.abs (write_file (d ∷ move) c.new (perm_of (sys.stat w c.abs)) w)

  abbrev pub write_op : Op → Change → World → Done World
  write_op add c w = write_file c.abs c.new default_perm w
  write_op delete c w = failed_as (delete_failed c.abs) (sys.remove c.abs w)
  write_op update c w = update_to c.move_abs c w

  unfoldable pub write_change : Change → World → Done World
  write_change c w = write_op c.op c w

  abbrev pub snapshot_of : World → Text → Snapshot → Option Stat → Snapshot
  snapshot_of w path rest none = with_original (absent_file path) rest
  snapshot_of w path rest (some s) =
      if s.is_regular then with_reading path s.perm rest (sys.read_file w path) else rest

  -- The loop of `snapshot` over the paths; `seen` holds those before.
  unfoldable pub snapshot_loop : World → List Text → List Text → Snapshot
  snapshot_loop w seen [] = taken []
  snapshot_loop w seen (path ∷ paths) =
      let skipped = snapshot_loop w seen paths in
      let rest = snapshot_loop w (path ∷ seen) paths in
      if text_eq path [] || contains seen path
      then skipped
      else snapshot_of w path rest (sys.stat w path)

  unfoldable pub snapshot : List Change → World → Snapshot
  snapshot changes w = snapshot_loop w [] (touched changes)

  abbrev pub restored_as : Text → Done World → Done World
  restored_as path (w, none) = (w, none)
  restored_as path (w, some e) = (w, some (not_restored path e))

  abbrev pub take_away : Text → Bool → World → Done World
  take_away path false w = (w, none)
  take_away path true w = failed_as (not_removed path) (sys.remove path w)

  unfoldable pub restore_one : Original → World → Done World
  restore_one o w =
      if o.absent
      then take_away o.path (sys.lstat w o.path) w
      else restored_as o.path (write_file o.path o.text o.perm w)

  unfoldable pub restore : List Original → World → World × List WriteError
  restore [] w = (w, [])
  restore (o ∷ before) w =
      let (next, e) = restore_one o w in
      let (last, errors) = restore before next in (last, one_error e ++ errors)

  abbrev pub undo : List Original → WriteError → World → Outcome World
  undo before e w = let (last, errors) = restore before w in undone last e errors

  unfoldable pub write_loop : List Original → List Change → World → Outcome World
  write_loop before [] w = applied w
  write_loop before (c ∷ changes) w =
      let (next, failure) = write_change c w in
      elim failure [ some e ↦ undo before e next | none ↦ write_loop before changes next ]

  abbrev pub write_after : List Change → World → Snapshot → Outcome World
  write_after changes w (not_taken e) = refused w e
  write_after changes w (taken before) = write_loop before changes w

  unfoldable pub write_all : List Change → World → Outcome World
  write_all changes w = write_after changes w (snapshot changes w)

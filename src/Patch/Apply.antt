-- ===== src/Patch/Apply.antt =====
-- internal/patch/apply.go: the changes that a patch's hunks make, computed before any is written.
-- `Disk` stands for what the operating system gives when a path is read.
pub mod Replay
mod Samples
use mathlib.Core.List.{reverse}
use uagent_harness.Prelude.{
  ℕ, Bool, true, false, Option, none, some, List, [], ◌∷◌, ◌++◌, ◌||◌, ◌==◌, if◌then◌else◌, Text,
  codes, text_eq, has_prefix,
}
use uagent_harness.Patch.Parse.{Op, add, delete, update, Hunk}
use uagent_harness.Patch.Update
use uagent_harness.Patch.Update.{Failure, updated}

-- The parts between slashes.
unfoldable pub parts_from : Text → Text → List Text
parts_from part [] = part ∷ []
parts_from part (c ∷ s) =
    let ended = parts_from [] s in
    let longer = parts_from (part ++ c ∷ []) s in if c == b'/' then part ∷ ended else longer

abbrev parent : Bool → List Text → List Text
parent true [] = []
parent true (p ∷ stack) = stack
parent false [] = codes ".." ∷ []
parent false (p ∷ stack) = if text_eq p (codes "..") then codes ".." ∷ p ∷ stack else stack

-- The parts that stay, the last first.
unfoldable pub clean_loop : Bool → List Text → List Text → List Text
clean_loop rooted stack [] = stack
clean_loop rooted stack (p ∷ parts) =
    clean_loop rooted
      (if text_eq p [] || text_eq p (codes ".")
        then stack
        else if text_eq p (codes "..")
        then parent rooted stack
        else p ∷ stack)
      parts

unfoldable pub join_slashes : List Text → Text
join_slashes [] = []
join_slashes (p ∷ []) = p
join_slashes (p ∷ q ∷ parts) = p ++ (b'/' ∷ join_slashes (q ∷ parts))

abbrev pub clean_text : Bool → Text → Text
clean_text true s = b'/' ∷ s
clean_text false [] = codes "."
clean_text false (c ∷ s) = c ∷ s

-- filepath.Clean
unfoldable pub clean : Text → Text
clean path =
    let rooted = has_prefix path (codes "/") in
    clean_text rooted (join_slashes (reverse (clean_loop rooted [] (parts_from [] path))))

-- filepath.Join of two elements
pub join_path : Text → Text → Text
join_path [] [] = []
join_path [] (c ∷ path) = clean (c ∷ path)
join_path (c ∷ dir) [] = clean (c ∷ dir)
join_path (c ∷ dir) (d ∷ path) = clean ((c ∷ dir) ++ (b'/' ∷ d ∷ path))

pub resolve : Text → Text → Text
resolve cwd path = if has_prefix path (codes "/") then clean path else join_path cwd path

-- A file's text, or the error's text.
pub data Reading : Type 0 where
  found : Text → Reading
  unreadable : Text → Reading

abbrev pub Disk : Type 0
Disk = Text → Reading

abbrev pub not_exist : Text
not_exist = codes "file does not exist"

-- The files as the patch has changed them so far, the newest entry first; `none` is a deleted file.
abbrev pub Overlay : Type 0
Overlay = List (Text × Option Text)

abbrev pub entry : Option Text → Reading
entry none = unreadable not_exist
entry (some text) = found text

pub read : Disk → Overlay → Text → Reading
read disk [] path = disk path
read disk ((changed, e) ∷ files) path =
    let rest = read disk files path in if text_eq changed path then entry e else rest

pub record Change : Type 0 where
  pub op : Op
  pub path : Text
  pub move_path : Text
  pub abs : Text
  pub move_abs : Text
  pub old : Text
  pub new : Text

pub data ApplyError : Type 0 where
  no_files : ApplyError
  delete_failed : Text → Text → ApplyError
  read_failed : Text → Text → ApplyError
  update_failed : Text → Failure → ApplyError

pub data Result {ℓ} (A : Type ℓ) : Type ℓ where
  ok : A → Result A
  fail : ApplyError → Result A

infixl 5 ◌>>=◌
abbrev pub ◌>>=◌ {ℓ κ} : {A : Type ℓ} {B : Type κ} → Result A → (A → Result B) → Result B
ok a >>= f = f a
fail e >>= f = fail e

abbrev pub change_of : Text → Hunk → Change
change_of cwd h = record {
  op = h.op;
  path = h.path;
  move_path = [];
  abs = resolve cwd h.path;
  move_abs = [];
  old = [];
  new = [];
}

abbrev pub Step : Type 0
Step = Change × Overlay

abbrev pub deleted : Change → Overlay → Reading → Result Step
deleted c files (unreadable e) = fail (delete_failed c.abs e)
deleted c files (found old) = ok (record c { old = old }, (c.abs, none) ∷ files)

-- Where the new text goes: the file, or the path that it moves to.
abbrev pub put : Text → Text → Change → Overlay → Step
put cwd [] c files = (c, (c.abs, some c.new) ∷ files)
put cwd (d ∷ move) c files = (
  record c { move_path = d ∷ move; move_abs = resolve cwd (d ∷ move) },
  (resolve cwd (d ∷ move), some c.new) ∷ (c.abs, none) ∷ files,
)

abbrev pub after_update : Text → Hunk → Change → Overlay → Text → Update.Result Text → Result Step
after_update cwd h c files old (Update.fail e) = fail (update_failed c.abs e)
after_update cwd h c files old (Update.ok new) =
    ok (put cwd h.move_path (record c { old = old; new = new }) files)

abbrev pub updated_file : Text → Hunk → Change → Overlay → Reading → Result Step
updated_file cwd h c files (unreadable e) = fail (read_failed c.abs e)
updated_file cwd h c files (found old) = after_update cwd h c files old (updated old h.chunks)

abbrev pub step_for : Op → Text → Disk → Overlay → Hunk → Change → Result Step
step_for add cwd disk files h c =
    ok (record c { new = h.contents }, (c.abs, some h.contents) ∷ files)
step_for delete cwd disk files h c = deleted c files (read disk files c.abs)
step_for update cwd disk files h c = updated_file cwd h c files (read disk files c.abs)

-- One round of the loop of `Compute`.
pub compute_step : Text → Disk → Overlay → Hunk → Result Step
compute_step cwd disk files h = step_for h.op cwd disk files h (change_of cwd h)

pub compute_loop : Text → Disk → Overlay → List Hunk → Result (List Change)
compute_loop cwd disk files [] = ok []
compute_loop cwd disk files (h ∷ hunks) = do
  step ← compute_step cwd disk files h
  rest ← compute_loop cwd disk step.1 hunks
  ok (step.0 ∷ rest)

pub compute : Text → Disk → List Hunk → Result (List Change)
compute cwd disk [] = fail no_files
compute cwd disk (h ∷ hunks) = compute_loop cwd disk [] (h ∷ hunks)

-- What a write or a removal that succeeds leaves on the disk.
abbrev pub with_file : Text → Reading → Disk → Disk
with_file path r disk q = if text_eq path q then r else disk q

abbrev pub write_update : Change → Text → Disk → Disk
write_update c [] disk = with_file c.abs (found c.new) disk
write_update c (d ∷ move) disk =
    with_file c.abs (unreadable not_exist) (with_file (d ∷ move) (found c.new) disk)

abbrev pub write_for : Op → Change → Disk → Disk
write_for add c disk = with_file c.abs (found c.new) disk
write_for delete c disk = with_file c.abs (unreadable not_exist) disk
write_for update c disk = write_update c c.move_abs disk

-- `write` where every call succeeds. A moved file is written, then the original is removed.
pub write : Change → Disk → Disk
write c disk = write_for c.op c disk

-- The absolute paths that the hunks write.
pub paths : Text → List Hunk → List Text
paths cwd [] = []
paths cwd (h ∷ hunks) =
    resolve cwd h.path
    ∷ (if text_eq h.move_path []
        then paths cwd hunks
        else resolve cwd h.move_path ∷ paths cwd hunks)

abbrev same_op : Op → Op → Bool
same_op add add = true
same_op delete delete = true
same_op update update = true
same_op _ _ = false

-- The path that the summary shows.
abbrev shown : Change → Text
shown c = elim c.op [
  | add ↦ c.path
  | delete ↦ c.path
  | update ↦ if text_eq c.move_path [] then c.path else c.move_path
]

pub group : Op → Text → List Change → Text
group o mark [] = []
group o mark (c ∷ changes) =
    let rest = group o mark changes in
    if same_op c.op o then mark ++ (codes " " ++ (shown c ++ (10 ∷ rest))) else rest

pub summary : List Change → Text
summary changes =
    codes "Success. Updated the following files:\n"
    ++ (group add (codes "A") changes
        ++ (group update (codes "M") changes ++ group delete (codes "D") changes))

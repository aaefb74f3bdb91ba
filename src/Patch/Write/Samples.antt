-- ===== src/Patch/Write/Samples.antt =====
-- internal/patch/apply.go: a disk with files only, one of which cannot be written.
use uagent_harness.Prelude.{
  ◌≡◌, ◌≢◌, refl, ◌∙◌, sym, ap, Bool, true, false, inl, inr, Option, none, some, List, [], ◌∷◌,
  if◌then◌else◌, Text, codes, text_eq, has_prefix, keep_if, text_eq_iff, text_eq_refl, All,
  Bool-cases, contains,
}
use uagent_harness.Patch.Parse.{add, update}
use uagent_harness.Patch.Apply.{
  clean, clean_loop, join_slashes, parts_from, Reading, found, unreadable, not_exist, Change,
}
use uagent_harness.Patch.Write.{
  Stat, Attempt, System, dir_of, to_slash, touched, Outcome, applied, undone, write_failed,
  write_all, restore, restore_one, snapshot, snapshot_loop, write_change, write_file, write_loop,
}
use uagent_harness.Patch.Write.Restore.{Laws, AreApart, written_paths}
use uagent_harness.Patch.Write.Undo.{IsBack, write_all-IsBack}

abbrev Files : Type 0
Files = Text → Option Text

abbrev with_entry : Text → Option Text → Files → Files
with_entry p o files q = if text_eq p q then o else files q

abbrev reading_of : Option Text → Reading
reading_of none = unreadable not_exist
reading_of (some text) = found text

abbrev stat_of : Option Text → Option Stat
stat_of none = none
stat_of (some text) = some (record { is_regular = true; perm = 420 })

abbrev is_there : Option Text → Bool
is_there none = false
is_there (some text) = true

abbrev locked : Text
locked = codes "/x"

abbrev system : System Files
system = record {
  stat = λ w p. stat_of (w p);
  lstat = λ w p. is_there (w p);
  read_file = λ w p. reading_of (w p);
  mkdir_all = λ d w. (w, none);
  write_bytes = λ p text perm w.
      if text_eq p locked then (w, some (codes "locked")) else (with_entry p (some text) w, none);
  remove = λ p w. (with_entry p none w, none);
}

written_there : (p : Text) (o : Option Text) (w : Files) → with_entry p o w p ≡ o
written_there p o w = rw (text_eq_refl p)

other_entry : (p q : Text) (o : Option Text) (w : Files) → p ≢ q → with_entry p o w q ≡ w q
other_entry p q o w n = elim (Bool-cases (text_eq p q)) [
  | inl e ↦ absurd (n ((text_eq_iff p q).0 e))
  | inr e ↦ rw e
]

world_of : Attempt Files → Files
world_of (w, o) = w

error_of : Attempt Files → Option Text
error_of (w, o) = o

not_failed : (t : Text) → some t ≢ none
not_failed t h = cc

laws : Laws system
unfolding world_of error_of
laws = record {
  removed = λ p w next h.
      ap (λ (a : Attempt Files). is_there (world_of a p)) (sym h)
      ∙ ap is_there (written_there p none w);
  written = λ p text perm w next h. elim (Bool-cases (text_eq p locked)) [
    | inl e ↦ absurd (not_failed (codes "locked") (ap error_of (rw e at h)))
    | inr e ↦
        ap (λ (a : Attempt Files). reading_of (world_of a p)) (sym (rw e at h))
        ∙ ap reading_of (written_there p (some text) w)
  ];
  remove_alone =
      λ p q w n. (ap is_there (other_entry p q none w n), ap reading_of (other_entry p q none w n));
  write_alone = λ p text perm q w n. elim (Bool-cases (text_eq p locked)) [
    | inl e ↦ rw e (refl, refl)
    | inr e ↦ rw e (
      ap is_there (other_entry p q (some text) w n),
      ap reading_of (other_entry p q (some text) w n),
    )
  ];
  mkdir_alone = λ d q w h. (refl, refl);
}

abbrev disk : Files
disk p = if text_eq p (codes "/a") then some (codes "old\n") else none

abbrev plain_change : Change
plain_change = record {
  op = add;
  path = [];
  move_path = [];
  abs = [];
  move_abs = [];
  old = [];
  new = [];
}

-- /a moves to /b, then /x cannot be written.
abbrev move_and_fail : List Change
move_and_fail =
    record plain_change {
      op = update;
      abs = codes "/a";
      move_abs = codes "/b";
      new = codes "new\n";
    }
    ∷ record plain_change { op = add; abs = locked; new = codes "x\n" }
    ∷ []

abbrev after_undo : Files
after_undo = with_entry (codes "/b") none (
    with_entry (codes "/a") (some (codes "old\n"))
      (with_entry (codes "/a") none (with_entry (codes "/b") (some (codes "new\n")) disk)))

undoes :
    write_all system move_and_fail disk
    ≡ undone after_undo (write_failed locked (codes "locked")) []
unfolding write_all snapshot snapshot_loop touched text_eq contains write_loop write_change
    write_file restore restore_one
undoes = refl

abbrev moved : Outcome Files → Option Text
moved o = elim o [ applied w ↦ w (codes "/b") | _ ↦ none ]

moves :
    moved (
      write_all system
        (record plain_change {
          op = update;
          abs = codes "/a";
          move_abs = codes "/b";
          new = codes "new\n";
        }
          ∷ [])
        disk)
    ≡ some (codes "new\n")
unfolding write_all snapshot snapshot_loop touched text_eq contains write_loop write_change
    write_file
moves = refl

paths_apart : AreApart (written_paths (touched move_and_fail))
unfolding dir_of clean clean_loop join_slashes parts_from keep_if touched text_eq has_prefix
    to_slash
paths_apart =
    ((refl, (refl, (refl, tt))), ((refl, (refl, (refl, tt))), ((refl, (refl, (refl, tt))), tt)))

write_all-IsBack_example :
    All (IsBack system disk after_undo) (written_paths (touched move_and_fail))
write_all-IsBack_example =
    write_all-IsBack system laws move_and_fail disk after_undo
      (write_failed locked (codes "locked")) paths_apart undoes

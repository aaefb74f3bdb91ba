-- ===== src/Approval/Mode.antt =====
-- internal/approval/mode.go: the permission modes, their cycle and their sandboxes.
pub mod Cycle
mod Samples
use uagent_harness.Prelude.{
  ℕ, zero, suc, ◌+◌, ◌%◌, Bool, true, false, Option, none, some, List, [], ◌∷◌, ◌==◌, if◌then◌else◌,
  Text, codes, text_eq, length, get_elem?, contains,
}

-- A mode is a text, as in the source.
abbrev pub Mode : Type 0
Mode = Text

-- The modes of internal/sandbox.
pub data Sandbox : Type 0 where
  in_read_only in_workspace full_access : Sandbox

abbrev pub read_only : Mode
read_only = codes "read-only"

abbrev pub workspace : Mode
workspace = codes "workspace"

abbrev pub auto : Mode
auto = codes "auto"

abbrev pub yolo : Mode
yolo = codes "yolo"

abbrev pub all_modes : List Mode
all_modes = read_only ∷ workspace ∷ auto ∷ yolo ∷ []

abbrev pub cycle : List Mode
cycle = read_only ∷ workspace ∷ auto ∷ []

pub parse_mode : Text → Option Mode
parse_mode s =
    if text_eq s [] then some workspace else if contains all_modes s then some s else none

-- The mode of a sandbox; `none` is a sandbox mode that the source does not know.
pub mode_for : Option Sandbox → Mode
mode_for (some in_read_only) = read_only
mode_for (some full_access) = yolo
mode_for (some in_workspace) = workspace
mode_for none = workspace

pub or_default : Mode → Mode
or_default [] = workspace
or_default (c ∷ m) = c ∷ m

abbrev pub one_more : Option ℕ → Option ℕ
one_more none = none
one_more (some i) = some (suc i)

-- slices.Index
pub index_of : List Mode → Mode → Option ℕ
index_of [] m = none
index_of (k ∷ modes) m =
    let rest = index_of modes m in if text_eq k m then some 0 else one_more rest

abbrev pub modes_offered : Bool → List Mode
modes_offered true = all_modes
modes_offered false = cycle

-- After the mode at a place: the next one, round the end; the first for a mode not in the list.
-- None is an index out of range, where the source panics.
abbrev pub after : List Mode → Option ℕ → Option Mode
after modes none = get_elem? modes 0
after modes (some i) = get_elem? modes ((i + 1) % length modes)

pub next : Bool → Mode → Option Mode
next offered m = after (modes_offered offered) (index_of (modes_offered offered) (or_default m))

pub sandbox_of : Mode → Sandbox
sandbox_of m =
    if text_eq (or_default m) read_only
    then in_read_only
    else if text_eq (or_default m) yolo
    then full_access
    else in_workspace

pub reviewer_decides : Mode → Bool
reviewer_decides m = text_eq m auto

pub asks_no_one : Mode → Bool
asks_no_one m = text_eq m yolo

pub label : Mode → Text
label m =
    if text_eq (or_default m) read_only
    then codes "read only"
    else if text_eq (or_default m) auto
    then codes "auto"
    else if text_eq (or_default m) yolo
    then codes "yolo"
    else codes "workspace"

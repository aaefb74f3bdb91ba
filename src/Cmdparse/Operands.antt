-- ===== src/Cmdparse/Operands.antt =====
-- internal/cmdparse/operands.go, with the helpers of parse.go that it calls: the operands of a
-- command among its flags.
pub mod Positional
mod Samples
use mathlib.Core.List.{reverse}
use uagent_harness.Prelude.{
  has_infix, ℕ, zero, suc, Bool, true, false, not, ◌&&◌, ◌||◌, Option, none, some, List, [], ◌∷◌,
  ◌++◌, map, ◌==◌, leb, length, if◌then◌else◌, Text, codes, text_eq, contains, has_prefix,
}
use uagent_harness.Cmdparse.Shlex.{Scan, found, ◌>>=◌, join}

pub data Kind : Type 0 where
  unknown read list_files search : Kind

pub record Parsed : Type 0 where
  pub kind : Kind
  pub cmd : Text
  pub name : Text
  pub path : Text
  pub query : Text
  pub paths : List Text
  pub globs : List Text
  pub lines : Text

abbrev pub two_dashes : Text
two_dashes = codes "--"

abbrev pub flag_file : Text
flag_file = codes "--file"

abbrev pub flag_exclude : Text
flag_exclude = codes "--exclude"

-- --flag=value
pub is_assignment : Text → Bool
is_assignment a = has_prefix a two_dashes && has_infix a (codes "=")

abbrev pub is_flag : Text → Bool
is_flag a = has_prefix a (codes "-")

pub is_connector : Text → Bool
is_connector t = contains (map codes ("&&" ∷ "||" ∷ "|" ∷ ";" ∷ [])) t

pub trim_at_connector : List Text → List Text
trim_at_connector [] = []
trim_at_connector (t ∷ tokens) =
    let rest = trim_at_connector tokens in if is_connector t then [] else t ∷ rest

pub skip_flag_values : List Text → List Text → List Text
skip_flag_values flags [] = []
skip_flag_values flags (a ∷ []) =
    if text_eq a two_dashes
    then []
    else if is_assignment a
    then []
    else if contains flags a
    then []
    else a ∷ []
skip_flag_values flags (a ∷ b ∷ args) =
    let after_value = skip_flag_values flags args in
    let next = skip_flag_values flags (b ∷ args) in
    if text_eq a two_dashes
    then b ∷ args
    else if is_assignment a
    then next
    else if contains flags a
    then after_value
    else a ∷ next

pub positional_operands : List Text → List Text → List Text
positional_operands flags [] = []
positional_operands flags (a ∷ []) =
    if text_eq a two_dashes
    then []
    else if is_assignment a
    then []
    else if contains flags a
    then []
    else if is_flag a
    then []
    else a ∷ []
positional_operands flags (a ∷ b ∷ args) =
    let after_value = positional_operands flags args in
    let next = positional_operands flags (b ∷ args) in
    if text_eq a two_dashes
    then b ∷ args
    else if is_assignment a
    then next
    else if contains flags a
    then after_value
    else if is_flag a
    then next
    else a ∷ next

abbrev first_of : List Text → Option Text
first_of [] = none
first_of (a ∷ ops) = some a

abbrev only_of : List Text → Option Text
only_of (a ∷ []) = some a
only_of _ = none

pub first_non_flag_operand : List Text → List Text → Option Text
first_non_flag_operand flags args = first_of (positional_operands flags args)

pub single_non_flag_operand : List Text → List Text → Option Text
single_non_flag_operand flags args = only_of (positional_operands flags args)

pub flag_values : List Text → List Text → List Text
flag_values flags [] = []
flag_values flags (a ∷ []) = []
flag_values flags (a ∷ b ∷ args) =
    let rest = flag_values flags (b ∷ args) in if contains flags a then b ∷ rest else rest

-- The arguments that are not flags.
pub non_flags : List Text → List Text
non_flags [] = []
non_flags (a ∷ args) = let rest = non_flags args in if is_flag a then rest else a ∷ rest

abbrev pattern_flags : List Text
pattern_flags = map codes ("-e" ∷ "--regexp" ∷ "-f" ∷ "--file" ∷ [])

abbrev number_flags : List Text
number_flags = map codes (
    "-m" ∷ "--max-count" ∷ "-C" ∷ "--context" ∷ "-A" ∷ "--after-context" ∷ "-B" ∷ "--before-context"
    ∷ [])

-- The operands and the pattern, so far.
abbrev Grep : Type 0
Grep = List Text × Option Text

abbrev or_pattern : Option Text → Text → Option Text
or_pattern (some p) b = some p
or_pattern none b = some b

unfoldable pub grep_loop : List Text → Grep → Grep
grep_loop [] g = g
grep_loop (a ∷ []) (ops, p) =
    if text_eq a two_dashes || contains pattern_flags a || contains number_flags a || is_flag a
    then (ops, p)
    else (ops ++ a ∷ [], p)
grep_loop (a ∷ b ∷ args) (ops, p) =
    let with_pattern = grep_loop args (ops, or_pattern p b) in
    let after_value = grep_loop args (ops, p) in
    let next = grep_loop (b ∷ args) (if is_flag a then (ops, p) else (ops ++ a ∷ [], p)) in
    if text_eq a two_dashes
    then (ops ++ (b ∷ args), p)
    else if contains pattern_flags a
    then with_pattern
    else if contains number_flags a
    then after_value
    else next

-- strings.ReplaceAll of a backslash by a slash, and strings.Split at slashes
pub slash_parts : Text → Text → List Text
slash_parts part [] = part ∷ []
slash_parts part (c ∷ s) =
    let ended = slash_parts [] s in
    let longer = slash_parts (part ++ c ∷ []) s in if c == b'/' then part ∷ ended else longer

pub with_slashes : Text → Text
with_slashes [] = []
with_slashes (c ∷ s) = (if c == 92 then b'/' else c) ∷ with_slashes s

pub drop_slashes : Text → Text
drop_slashes [] = []
drop_slashes (c ∷ s) = let rest = drop_slashes s in if c == b'/' then rest else c ∷ s

pub telling_part : Text → List Text → Text
telling_part whole [] = whole
telling_part whole (p ∷ parts) =
    let rest = telling_part whole parts in
    if contains (map codes ("" ∷ "build" ∷ "dist" ∷ "node_modules" ∷ "src" ∷ [])) p then rest else p

pub short_display_path : Text → Text
short_display_path p =
    let trimmed = reverse (drop_slashes (reverse (with_slashes p))) in
    telling_part trimmed (reverse (slash_parts [] trimmed))

abbrev search_of : Text → Text → List Text → Parsed
search_of cmd query [] = record {
  kind = search;
  cmd = cmd;
  name = [];
  path = [];
  query = query;
  paths = [];
  globs = [];
  lines = [];
}
search_of cmd query (path ∷ paths) = record {
  kind = search;
  cmd = cmd;
  name = [];
  path = short_display_path path;
  query = query;
  paths = path ∷ paths;
  globs = [];
  lines = [];
}

abbrev parsed_grep : Text → Grep → Parsed
parsed_grep cmd (ops, some p) = search_of cmd p ops
parsed_grep cmd ([], none) = search_of cmd [] []
parsed_grep cmd (query ∷ ops, none) = search_of cmd query ops

unfoldable pub parse_grep_like : List Text → List Text → Scan (List Parsed)
parse_grep_like main args = join main >>= λ cmd.
    found (parsed_grep cmd (grep_loop (trim_at_connector args) ([], none)) ∷ [])

abbrev second_of : List Text → Option Text
second_of (a ∷ b ∷ ops) = some b
second_of _ = none

pub awk_data_file_operand : List Text → Option Text
awk_data_file_operand args =
    let trimmed = trim_at_connector args in
    let ops = non_flags (
      skip_flag_values
        (map codes ("-F" ∷ "-v" ∷ "-f" ∷ "--field-separator" ∷ "--assign" ∷ "--file" ∷ []))
        trimmed) in
    if contains trimmed (codes "-f") || contains trimmed flag_file
    then first_of ops
    else second_of ops

abbrev walks : Text → List Text → Bool
walks script [] = false
walks script (s ∷ calls) = has_infix script s || walks script calls

pub walk_loop : List Text → Bool
walk_loop [] = false
walk_loop (a ∷ []) = false
walk_loop (a ∷ script ∷ args) =
    let rest = walk_loop (script ∷ args) in
    if text_eq a (codes "-c")
    then walks script (
        map codes (
          "os.walk" ∷ "os.listdir" ∷ "os.scandir" ∷ "glob.glob" ∷ "glob.iglob" ∷ "pathlib.Path"
          ∷ ".rglob(" ∷ []))
    else rest

pub python_walks_files : List Text → Bool
python_walks_files args = walk_loop (trim_at_connector args)

pub is_python_command : Text → Bool
is_python_command cmd =
    text_eq cmd (codes "python")
    || text_eq cmd (codes "python2")
    || text_eq cmd (codes "python3")
    || has_prefix cmd (codes "python2.")
    || has_prefix cmd (codes "python3.")

pub is_pathish : Text → Bool
is_pathish s =
    text_eq s (codes ".")
    || text_eq s (codes "..")
    || has_prefix s (codes "./")
    || has_prefix s (codes "../")
    || has_infix s (codes "/")
    || has_infix s (codes "\\")

abbrev fd_of : List Text → Text × Text
fd_of [] = ([], [])
fd_of (a ∷ []) = if is_pathish a then ([], a) else (a, [])
fd_of (a ∷ b ∷ ops) = (a, b)

pub fd_query_and_path : List Text → Text × Text
fd_query_and_path tail = fd_of (
    non_flags (
      skip_flag_values
        (map codes
          ("-t" ∷ "--type" ∷ "-e" ∷ "--extension" ∷ "-E" ∷ "--exclude" ∷ "--search-path" ∷ []))
        (trim_at_connector tail)))

pub find_root : List Text → Text
find_root [] = []
find_root (a ∷ args) =
    let rest = find_root args in
    if is_flag a || contains (map codes ("!" ∷ "(" ∷ ")" ∷ [])) a then rest else a

pub find_query : List Text → Text
find_query [] = []
find_query (a ∷ []) = []
find_query (a ∷ b ∷ args) =
    let rest = find_query (b ∷ args) in
    if contains (map codes ("-name" ∷ "-iname" ∷ "-path" ∷ "-regex" ∷ [])) a then b else rest

pub find_query_and_path : List Text → Text × Text
find_query_and_path tail = (find_query (trim_at_connector tail), find_root (trim_at_connector tail))

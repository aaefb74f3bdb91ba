-- ===== src/Cmdparse/Operands/Samples.antt =====
-- internal/cmdparse/operands.go: runs on concrete arguments.
use uagent_harness.Prelude.{
  has_infix, ◌≡◌, refl, true, false, some, none, List, [], ◌∷◌, map, Text, codes, text_eq, contains,
  has_prefix, All,
}
use uagent_harness.Cmdparse.Operands.{
  two_dashes, is_flag, skip_flag_values, positional_operands, first_non_flag_operand,
  single_non_flag_operand, flag_values, non_flags, awk_data_file_operand, python_walks_files,
  is_python_command, fd_query_and_path, find_query_and_path, short_display_path, is_pathish,
  is_assignment, trim_at_connector, is_connector, walk_loop, find_root, find_query, with_slashes,
  drop_slashes, slash_parts, telling_part,
}
use uagent_harness.Cmdparse.Operands.Positional.{
  positional_operands-unflagged, non_flags-skip_flag_values,
}

abbrev rg_args : List Text
rg_args = map codes ("-g" ∷ "x" ∷ "todo" ∷ "src" ∷ [])

abbrev glob_flag : List Text
glob_flag = codes "-g" ∷ []

no_dashes : All (λ a. text_eq a two_dashes ≡ false) rg_args
unfolding text_eq
no_dashes = (refl, (refl, (refl, (refl, tt))))

finds_operands : positional_operands glob_flag rg_args ≡ map codes ("todo" ∷ "src" ∷ [])
unfolding positional_operands text_eq contains has_prefix has_infix is_assignment
finds_operands = refl

first_operand : first_non_flag_operand glob_flag rg_args ≡ some (codes "todo")
unfolding first_non_flag_operand positional_operands text_eq contains has_prefix has_infix
    is_assignment
first_operand = refl

no_single : single_non_flag_operand glob_flag rg_args ≡ none
unfolding single_non_flag_operand positional_operands text_eq contains has_prefix has_infix
    is_assignment
no_single = refl

finds_globs : flag_values glob_flag rg_args ≡ codes "x" ∷ []
unfolding flag_values text_eq contains has_prefix has_infix is_assignment
finds_globs = refl

awk_file :
    awk_data_file_operand (map codes ("-F" ∷ ":" ∷ "p" ∷ "f" ∷ "|" ∷ "g" ∷ [])) ≡ some (codes "f")
unfolding awk_data_file_operand trim_at_connector is_connector non_flags skip_flag_values text_eq
    contains has_prefix has_infix is_assignment
awk_file = refl

python_walks : python_walks_files (map codes ("-c" ∷ "import os; os.walk(d)" ∷ [])) ≡ true
unfolding python_walks_files trim_at_connector is_connector walk_loop text_eq contains has_prefix
    has_infix is_assignment
python_walks = refl

python_name : is_python_command (codes "python3.12") ≡ true
unfolding is_python_command text_eq contains has_prefix has_infix is_assignment
python_name = refl

fd_query : fd_query_and_path (map codes ("-t" ∷ "f" ∷ "a" ∷ "b" ∷ [])) ≡ (codes "a", codes "b")
unfolding fd_query_and_path trim_at_connector is_connector non_flags skip_flag_values is_pathish
    text_eq contains has_prefix has_infix is_assignment
fd_query = refl

find_name : find_query_and_path (map codes ("." ∷ "-name" ∷ "x" ∷ [])) ≡ (codes "x", codes ".")
unfolding find_query_and_path find_root find_query trim_at_connector is_connector text_eq contains
    has_prefix has_infix is_assignment
find_name = refl

short_name : short_display_path (codes "webview\\src/") ≡ codes "webview"
unfolding short_display_path with_slashes drop_slashes slash_parts telling_part text_eq contains
    has_prefix has_infix is_assignment
short_name = refl

positional_operands-unflagged_example :
    All (λ a. is_flag a ≡ false) (positional_operands glob_flag rg_args)
positional_operands-unflagged_example = positional_operands-unflagged glob_flag rg_args no_dashes

non_flags-skip_flag_values_example :
    non_flags (skip_flag_values glob_flag rg_args) ≡ positional_operands glob_flag rg_args
non_flags-skip_flag_values_example = non_flags-skip_flag_values glob_flag rg_args no_dashes

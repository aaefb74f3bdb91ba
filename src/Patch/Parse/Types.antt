-- ===== src/Patch/Parse/Types.antt =====
-- internal/patch/parse.go: hunks, errors and the parser's state. Texts are lists of code points.
use uagent_harness.Prelude.{
  ℕ, Bool, true, false, ◌&&◌, Option, none, some, List, [], ◌∷◌, ◌++◌, ◌==◌, Text, codes, length,
}

abbrev pub begin_patch : Text
begin_patch = codes "*** Begin Patch"

abbrev pub end_patch : Text
end_patch = codes "*** End Patch"

abbrev pub add_file : Text
add_file = codes "*** Add File: "

abbrev pub delete_file : Text
delete_file = codes "*** Delete File: "

abbrev pub update_file : Text
update_file = codes "*** Update File: "

abbrev pub move_to : Text
move_to = codes "*** Move to: "

abbrev pub end_of_file_mark : Text
end_of_file_mark = codes "*** End of File"

abbrev pub context_mark : Text
context_mark = codes "@@ "

abbrev pub empty_context : Text
empty_context = codes "@@"

pub data Op : Type 0 where
  add delete update : Op

pub record Chunk : Type 0 where
  pub context : Text
  pub has_context : Bool
  pub old : List Text
  pub new : List Text
  pub end_of_file : Bool

abbrev pub new_chunk : Chunk
new_chunk = record { context = []; has_context = false; old = []; new = []; end_of_file = false }

pub record Hunk : Type 0 where
  pub op : Op
  pub path : Text
  pub contents : Text
  pub move_path : Text
  pub chunks : List Chunk

abbrev pub new_hunk : Op → Text → Hunk
new_hunk op path = record { op = op; path = path; contents = []; move_path = []; chunks = [] }

abbrev or_path : Text → Text → Text
or_path [] path = path
or_path (c ∷ s) path = c ∷ s

-- The path that the hunk leaves.
unfoldable pub target : Hunk → Text
target h = or_path h.move_path h.path

unfoldable pub is_empty : Chunk → Bool
is_empty c = length c.old == 0 && length c.new == 0

pub data Message : Type 0 where
  first_line last_line no_lines : Message
  bad_header unexpected_line expected_context empty_hunk : Text → Message

-- The message's text, as the source formats it.
unfoldable pub message_text : Message → Text
message_text first_line = codes "The first line of the patch must be '*** Begin Patch'"
message_text last_line = codes "The last line of the patch must be '*** End Patch'"
message_text no_lines = codes "Update hunk does not contain any lines"
message_text (bad_header s) =
    codes "'"
    ++ (s
        ++ codes
            "' is not a valid hunk header. Valid hunk headers: '*** Add File: {path}', '*** Delete File: {path}', '*** Update File: {path}'")
message_text (unexpected_line s) =
    codes "Unexpected line found in update hunk: '"
    ++ (s
        ++ codes
            "'. Every line should start with ' ' (context line), '+' (added line), or '-' (removed line)")
message_text (expected_context s) =
    codes "Expected update hunk to start with a @@ context marker, got: '" ++ (s ++ codes "'")
message_text (empty_hunk path) = codes "Update file hunk for path '" ++ (path ++ codes "' is empty")

-- `line` is 0 when the patch as a whole is invalid.
pub record ParseError : Type 0 where
  pub line : ℕ
  pub message : Message

pub data Result {ℓ} (A : Type ℓ) : Type ℓ where
  ok : A → Result A
  fail : ParseError → Result A

infixl 5 ◌>>=◌
abbrev pub ◌>>=◌ {ℓ κ} : {A : Type ℓ} {B : Type κ} → Result A → (A → Result B) → Result B
ok a >>= f = f a
fail e >>= f = fail e

pub data Mode : Type 0 where
  not_started started adding deleting updating ended : Mode

pub record Parser : Type 0 where
  pub mode : Mode
  pub hunks : List Hunk
  pub line : ℕ
  pub hunk_line : ℕ

module _ {ℓ} {A : Type ℓ} where
  unfoldable pub last? : List A → Option A
  last? [] = none
  last? (a ∷ []) = some a
  last? (a ∷ b ∷ l) = last? (b ∷ l)

  -- A write to the last element.
  unfoldable pub update_last : (A → A) → List A → List A
  update_last f [] = []
  update_last f (a ∷ []) = f a ∷ []
  update_last f (a ∷ b ∷ l) = a ∷ update_last f (b ∷ l)

abbrev pub at_line : Parser → Message → ParseError
at_line p m = record { line = p.line; message = m }

abbrev pub is_updating : Mode → Bool
is_updating updating = true
is_updating _ = false

-- Goes on unless an error is there.
abbrev pub unless {ℓ} : {A : Type ℓ} → Option ParseError → A → Result A
unless none a = ok a
unless (some e) a = fail e

-- After the header test of a line.
abbrev pub unless_header : Result (Option Parser) → Result Parser → Result Parser
unless_header (fail e) other = fail e
unless_header (ok (some p)) other = ok p
unless_header (ok none) other = other

-- ===== src/Images.antt =====
-- internal/images/images.go: the images of a message as tag lines at its end. Texts are code points.
use mathlib.Core.List.{reverse}
use uagent_harness.Prelude.{
  ℕ, ◌+◌, ◌-◌, ◌*◌, Bool, ◌&&◌, ◌||◌, Option, none, some, List, [], ◌∷◌, ◌++◌, ◌==◌, ltb, leb,
  if◌then◌else◌, Text, codes, has_infix, cut_prefix, trim_space, trim_end, length, split_newlines,
}
use uagent_harness.Compaction.Tokens.{decimal}

pub record Image : Type 0 where
  pub label : Text
  pub ref : Text
  pub width : ℕ
  pub height : ℕ

abbrev quote_mark : Text
quote_mark = 34 ∷ []

abbrev pub tag_prefix : Text
tag_prefix = codes "<uah-image "

abbrev quoted : Text → Text
quoted s = quote_mark ++ (s ++ quote_mark)

-- The label and the ref have no characters that `%q` escapes.
unfoldable pub tag : Image → Text
tag image =
    let size = decimal image.width ++ (codes "x" ++ decimal image.height) in
    tag_prefix
    ++ (codes "label="
        ++ (quoted image.label
            ++ (codes " ref="
                ++ (quoted image.ref ++ (codes " size=" ++ (quoted size ++ codes "/>"))))))

unfoldable pub tag_lines : List Image → Text
tag_lines [] = []
tag_lines (image ∷ images) = 10 ∷ (tag image ++ tag_lines images)

abbrev is_newline : ℕ → Bool
is_newline c = c == 10

unfoldable pub join_images : Text → List Image → Text
join_images text [] = text
join_images text (image ∷ images) = trim_end is_newline text ++ (10 ∷ tag_lines (image ∷ images))

abbrev pub is_digit : ℕ → Bool
is_digit c = leb 48 c && leb c 57

abbrev pub is_hex : ℕ → Bool
is_hex c = is_digit c || (leb 97 c && leb c 102)

abbrev onto_span : ℕ → Text × Text → Text × Text
onto_span c (start, rest) = (c ∷ start, rest)

-- The longest start that passes a test, and the rest.
unfoldable pub span : (ℕ → Bool) → Text → Text × Text
span test [] = ([], [])
span test (c ∷ s) = let rest = span test s in if test c then onto_span c rest else ([], c ∷ s)

infixl 5 ◌>>=◌
abbrev ◌>>=◌ {ℓ κ} : {A : Type ℓ} {B : Type κ} → Option A → (A → Option B) → Option B
some a >>= f = f a
none >>= f = none

-- At least one character that passes the test, and the rest.
unfoldable pub some_of : (ℕ → Bool) → Text → Option (Text × Text)
some_of test s =
    let (start, rest) = span test s in if length start == 0 then none else some (start, rest)

abbrev either : Option Text → Option Text → Text → Text → Option (Text × Text)
either (some rest) other name name' = some (name, rest)
either none (some rest) name name' = some (name', rest)
either none none name name' = none

unfoldable pub number_of : ℕ → Text → ℕ
number_of n [] = n
number_of n (c ∷ s) = number_of (n * 10 + (c - 48)) s

-- strconv.Atoi of digits
unfoldable pub atoi : Text → Option ℕ
atoi s = if ltb (number_of 0 s) 9223372036854775808 then some (number_of 0 s) else none

abbrev only_at_end {ℓ} : {A : Type ℓ} → Text → A → Option A
only_at_end [] a = some a
only_at_end (c ∷ s) a = none

-- The regular expression of a tag, with its groups.
unfoldable pub parse_tag : Text → Option Image
parse_tag line = do
  at_label ←
      cut_prefix (trim_space line)
        (tag_prefix ++ (codes "label=" ++ (quote_mark ++ codes "[Image #")))
  label ← some_of is_digit at_label
  at_ref ← cut_prefix label.1 (codes "]" ++ (quote_mark ++ (codes " ref=" ++ quote_mark)))
  hex ← some_of is_hex at_ref
  ext ←
      either (cut_prefix hex.1 (codes ".png")) (cut_prefix hex.1 (codes ".jpg")) (codes ".png")
        (codes ".jpg")
  at_size ← cut_prefix ext.1 (quote_mark ++ (codes " size=" ++ quote_mark))
  width ← some_of is_digit at_size
  at_height ← cut_prefix width.1 (codes "x")
  height ← some_of is_digit at_height
  end ← cut_prefix height.1 (quote_mark ++ codes "/>")
  w ← atoi width.0
  h ← atoi height.0
  image ← only_at_end end (record {
    label = codes "[Image #" ++ (label.0 ++ codes "]");
    ref = hex.0 ++ ext.0;
    width = w;
    height = h;
  })
  if length hex.0 == 64 then some image else none

abbrev join_lines : List Text → Text
join_lines [] = []
join_lines (l ∷ []) = l
join_lines (l ∷ k ∷ lines) = l ++ (10 ∷ join_lines (k ∷ lines))

-- The lines from the last one on, without the tags, and the tags' images.
unfoldable pub tags_loop : List Text → List Image → List Text × List Image
tags_loop [] images = ([], images)
tags_loop (l ∷ lines) images = with_tag (parse_tag l) (λ image. tags_loop lines (image ∷ images))
  where
    with_tag : Option Image → (Image → List Text × List Image) → List Text × List Image
    with_tag none earlier = (l ∷ lines, images)
    with_tag (some image) earlier = earlier image

abbrev without_tags : Text → List Text × List Image → Text × List Image
without_tags text (lines, []) = (text, [])
without_tags text (lines, image ∷ images) =
    (trim_end is_newline (join_lines (reverse lines)), image ∷ images)

unfoldable pub split_images : Text → Text × List Image
split_images text =
    let tags = without_tags text (tags_loop (reverse (split_newlines text)) []) in
    if has_infix text tag_prefix then tags else (text, [])

unfoldable pub display : Text → Text
display text = (split_images text).0

-- ===== src/Patch/Parse/Complete.antt =====
-- internal/patch/parse.go: every hunk that `parse` returns is complete.
use uagent_harness.Prelude.{
  ◌≡◌, inl, inr, refl, ◌∙◌, sym, subst, Bool, true, false, not, ◌&&◌, ◌||◌, Option, none, some,
  List, [], ◌∷◌, ◌++◌, arith, Text, length, All, Option-cases, if◌then◌else◌, ◌==◌, text_eq,
  cut_prefix, has_prefix, some_inj, trim_space, trim_right,
}
use uagent_harness.Patch.Parse.{
  update, Chunk, new_chunk, Hunk, is_empty, last?, update_last, Mode, not_started, started, adding,
  deleting, updating, ended, Parser, ParseError, Result, ok, fail, unless, ensure_update_not_empty,
  header, end_mode, end_patch, at_line, on_last, add_chunk, with_last_chunk, apply_change, change,
  changed, change_line, mark_end, update_hunk_line, ends_file, is_empty?, is_none, or_text,
  update_line_in, update_line, added, add_line, process_in, process, next_line, process_last,
  parse_loop, parse, start, finished, boundaries, empty_context, context_mark, expected_context,
  unexpected_line, last_line, move_to, end_of_file_mark, split_lines, no_change_line, ◌>>=◌,
  begin_patch,
}
use uagent_harness.Patch.Parse.Hunks.{
  Last, Last-All, Last-append, Last-update_last, IsFull, IsAny, Shape, IsComplete, OpenChunks,
  Last-complete, last?-none,
}
use uagent_harness.Patch.Parse.Steps.{
  Current, Inv, ensure-All, Inv-ended, Keeps, header-KeepsHeader, Keeps-unless_header, Keeps-if,
}

-- An update hunk that may still grow.
abbrev IsOpen : Hunk → Type 0
IsOpen = Shape OpenChunks update

-- A write to the last hunk keeps the invariant while an update is read, if it keeps the hunk open.
on_last-Inv :
    (p : Parser) (f : Hunk → Hunk)
    → p.mode ≡ updating
    → ((h : Hunk) → last? p.hunks ≡ some h → IsOpen h → IsOpen (f h))
    → Inv p
    → Inv (on_last p f)
on_last-Inv p f m keep i =
    Last-update_last IsComplete (Current p.mode) (Current p.mode) p.hunks f
      (λ h e c. subst (λ x. Current x (f h)) (sym m) (keep h e (subst (λ x. Current x h) m c))) i

OpenChunks-update_last :
    (cs : List Chunk) (f : Chunk → Chunk) → OpenChunks cs → OpenChunks (update_last f cs)
OpenChunks-update_last cs f h = Last-update_last IsFull IsAny IsAny cs f (λ a e k. tt) h

with_last_chunk-IsOpen : (f : Chunk → Chunk) (h : Hunk) → IsOpen h → IsOpen (with_last_chunk f h)
with_last_chunk-IsOpen f h (o, s, c) = (o, s, OpenChunks-update_last h.chunks f c)

-- A chunk can be added where the last one is not empty.
add_chunk-IsOpen :
    (c : Chunk) (h : Hunk) → is_empty? (last? h.chunks) ≡ false → IsOpen h → IsOpen (add_chunk c h)
add_chunk-IsOpen c h e (o, s, k) = elim (Option-cases (last? h.chunks)) [
  | inl n ↦
      let z = last?-none h.chunks n in
      (o, s, Last-append IsFull IsAny h.chunks c (subst (All IsFull) (sym z) tt) tt)
  | inr (d, n) ↦ (
    o,
    s,
    Last-append IsFull IsAny h.chunks c (Last-complete IsFull IsAny h.chunks d n (rw n at e) k) tt,
  )
]

no_chunks : (cs : List Chunk) → (length cs == 0) ≡ true → is_empty? (last? cs) ≡ false
unfolding last?
no_chunks [] h = refl
no_chunks (c ∷ cs) h = ground arith

apply_change-IsOpen : (f : Chunk → Chunk) (h : Hunk) → IsOpen h → IsOpen (apply_change f h)
unfolding apply_change
apply_change-IsOpen f h i =
    with_last_chunk-IsOpen f (if length h.chunks == 0 then add_chunk new_chunk h else h)
      (first (length h.chunks == 0) refl)
  where
    first :
        (b : Bool) → (length h.chunks == 0) ≡ b → IsOpen (if b then add_chunk new_chunk h else h)
    first true e = add_chunk-IsOpen new_chunk h (no_chunks h.chunks e) i
    first false e = i

changed-Keeps :
    (p : Parser) (e : ParseError) (o : Option (Chunk → Chunk))
    → p.mode ≡ updating
    → Inv p
    → Keeps (changed p e o)
changed-Keeps p e none m i = tt
changed-Keeps p e (some f) m i = on_last-Inv p (apply_change f) m (λ h _. apply_change-IsOpen f h) i

change_line-Keeps :
    (p : Parser) (line : Text) (o : Option Chunk)
    → p.mode ≡ updating
    → Inv p
    → Keeps (change_line p line o)
unfolding change_line
change_line-Keeps p line o m i = changed-Keeps p (no_change_line p line o) (change line) m i

mark_end-Keeps : (p : Parser) (o : Option Chunk) → p.mode ≡ updating → Inv p → Keeps (mark_end p o)
unfolding mark_end
mark_end-Keeps p none m i = i
mark_end-Keeps p (some c) m i =
    Keeps-if (is_empty c) _ _ (λ _. tt)
      (λ _. on_last-Inv p _ m (λ h _. with_last_chunk-IsOpen _ h) i)

-- A chunk is added after a marker only where the last chunk is not empty.
add_on_last-Keeps :
    (p : Parser) (h : Hunk) (c : Chunk)
    → p.mode ≡ updating
    → last? p.hunks ≡ some h
    → is_empty? (last? h.chunks) ≡ false
    → Inv p
    → Inv (on_last p (add_chunk c))
add_on_last-Keeps p h c m e n i =
    on_last-Inv p (add_chunk c) m
      (λ k f.
        add_chunk-IsOpen c k
          (subst (λ x. is_empty? (last? x.chunks) ≡ false) (some_inj h k (sym e ∙ f)) n))
      i

left_of : (a b c : Bool) → a ≡ true → (a || b) && c ≡ false → c ≡ false
left_of true b c t n = n
left_of false b c t n = cc

right_of : (a b c : Bool) → b ≡ true → (a || b) && c ≡ false → c ≡ false
right_of true b c t n = n
right_of false true c t n = n
right_of false false c t n = cc

update_hunk_line-Keeps :
    (p : Parser) (line u : Text) (h : Hunk)
    → p.mode ≡ updating
    → last? p.hunks ≡ some h
    → Inv p
    → Keeps (update_hunk_line p line u h (last? h.chunks))
unfolding update_hunk_line
update_hunk_line-Keeps p line u h m e i =
    let last = last? h.chunks in
    let is_empty_context = text_eq u empty_context in
    let is_mark = has_prefix u context_mark in
    let marked : Chunk = record new_chunk {
      context = or_text (cut_prefix u context_mark);
      has_context = true;
    } in
    let moved : Hunk → Hunk = λ k. record k { move_path = or_text (cut_prefix u move_to) } in
    let at_end = if text_eq u end_of_file_mark then mark_end p last else change_line p line last in
    let at_mark = if is_mark then ok (on_last p (add_chunk marked)) else at_end in
    let at_empty = if is_empty_context then ok (on_last p (add_chunk new_chunk)) else at_mark in
    let at_context =
      if (is_empty_context || is_mark) && is_empty? last
      then fail (at_line p (unexpected_line line))
      else at_empty in
    let at_move =
      if is_none last && length h.move_path == 0 && has_prefix u move_to
      then ok (on_last p moved)
      else at_context in
    let at_ended =
      if ends_file last && not (is_empty_context || is_mark)
      then fail (at_line p (expected_context line))
      else at_move in
    Keeps-if (ends_file last && length u == 0) (ok p) at_ended (λ _. i)
      (λ _.
        Keeps-if _ (fail (at_line p (expected_context line))) at_move (λ _. tt)
          (λ _.
            Keeps-if _ (ok (on_last p moved)) at_context (λ _. on_last-Inv p moved m (λ k _ o. o) i)
              (λ _.
                Keeps-if _ (fail (at_line p (unexpected_line line))) at_empty (λ _. tt)
                  (λ n.
                    Keeps-if is_empty_context (ok (on_last p (add_chunk new_chunk))) at_mark
                      (λ t.
                        add_on_last-Keeps p h new_chunk m e (left_of is_empty_context is_mark _ t n)
                          i)
                      (λ _.
                        Keeps-if is_mark (ok (on_last p (add_chunk marked))) at_end
                          (λ t.
                            add_on_last-Keeps p h marked m e
                              (right_of is_empty_context is_mark _ t n) i)
                          (λ _.
                            Keeps-if (text_eq u end_of_file_mark) (mark_end p last)
                              (change_line p line last) (λ _. mark_end-Keeps p last m i)
                              (λ _. change_line-Keeps p line last m i)))))))

update_line_in-Keeps :
    (p : Parser) (line u : Text) (o : Option Hunk)
    → p.mode ≡ updating
    → last? p.hunks ≡ o
    → Inv p
    → Keeps (update_line_in p line u o)
unfolding update_line_in
update_line_in-Keeps p line u none m e i = tt
update_line_in-Keeps p line u (some h) m e i = update_hunk_line-Keeps p line u h m e i

update_line-Keeps :
    (p : Parser) (line : Text) → p.mode ≡ updating → Inv p → Keeps (update_line p line)
unfolding update_line
update_line-Keeps p line m i =
    Keeps-unless_header (header p (trim_right line)) _ (header-KeepsHeader p (trim_right line) i)
      (update_line_in-Keeps p line (trim_right line) (last? p.hunks) m refl i)

added-Keeps :
    (p : Parser) (trimmed : Text) (o : Option Text)
    → p.mode ≡ adding
    → Inv p
    → Keeps (added p trimmed o)
added-Keeps p trimmed none m i = tt
added-Keeps p trimmed (some rest) m i =
    Last-update_last IsComplete (Current p.mode) (Current p.mode) p.hunks _
      (λ h e c.
        subst (λ x. Current x (record h { contents = h.contents ++ (rest ++ 10 ∷ []) })) (sym m)
          (subst (λ x. Current x h) m c))
      i

process_in-Keeps :
    (m : Mode) (p : Parser) (line : Text) → p.mode ≡ m → Inv p → Keeps (process_in m p line)
unfolding process_in add_line
process_in-Keeps not_started p line m i =
    Keeps-if (text_eq (trim_space line) begin_patch) _ _
      (λ _. subst (λ x. Last IsComplete (Current x) p.hunks) m i) (λ _. tt)
process_in-Keeps started p line m i =
    Keeps-unless_header (header p (trim_space line)) _ (header-KeepsHeader p (trim_space line) i) tt
process_in-Keeps deleting p line m i =
    Keeps-unless_header (header p (trim_space line)) _ (header-KeepsHeader p (trim_space line) i) tt
process_in-Keeps adding p line m i =
    Keeps-unless_header (header p (trim_space line)) _ (header-KeepsHeader p (trim_space line) i)
      (added-Keeps p (trim_space line) _ m i)
process_in-Keeps updating p line m i = update_line-Keeps p line m i
process_in-Keeps ended p line m i = Keeps-if (length (trim_space line) == 0) _ _ (λ _. i) (λ _. tt)

process-Keeps : (p : Parser) (line : Text) → Inv p → Keeps (process p line)
unfolding process
process-Keeps p line i = process_in-Keeps p.mode p line refl i

end-Keeps :
    (p : Parser) (o : Option ParseError)
    → (o ≡ none → All IsComplete p.hunks)
    → Keeps (unless o (end_mode p))
end-Keeps p none h = Inv-ended p (h refl)
end-Keeps p (some e) h = tt

process_last-Keeps : (p : Parser) (line : Text) → Inv p → Keeps (process_last p line)
unfolding process_last
process_last-Keeps p line i =
    Keeps-if (text_eq (trim_space line) end_patch) _ _
      (λ _. end-Keeps p (ensure_update_not_empty p end_patch) (ensure-All p end_patch i))
      (λ _. process-Keeps p line i)

Keeps-bind :
    (r : Result Parser) (f : Parser → Result Parser)
    → Keeps r
    → ((p : Parser) → Inv p → Keeps (f p))
    → Keeps (r >>= f)
Keeps-bind (ok p) f h k = k p h
Keeps-bind (fail e) f h k = tt

parse_loop-Keeps : (lines : List Text) (p : Parser) → Inv p → Keeps (parse_loop p lines)
unfolding parse_loop
parse_loop-Keeps [] p i = i
parse_loop-Keeps (line ∷ []) p i = process_last-Keeps (next_line p) line i
parse_loop-Keeps (line ∷ next ∷ rest) p i =
    Keeps-bind (process (next_line p) line) _ (process-Keeps (next_line p) line i)
      (λ q k. parse_loop-Keeps (next ∷ rest) q k)

-- What a result holds, if it is one.
abbrev AllComplete : Result (List Hunk) → Type 0
AllComplete (ok hunks) = All IsComplete hunks
AllComplete (fail e) = Unit

finished-AllComplete : (p : Parser) → Inv p → AllComplete (finished p)
finished-AllComplete p i = go p.mode refl
  where
    go :
        (m : Mode)
        → p.mode ≡ m
        → AllComplete
            (elim m [ ended ↦ ok p.hunks | _ ↦ fail (record { line = 0; message = last_line }) ])
    go not_started e = tt
    go started e = tt
    go adding e = tt
    go deleting e = tt
    go updating e = tt
    go ended e =
        Last-All IsComplete IsComplete p.hunks (λ a k. k)
          (subst (λ x. Last IsComplete (Current x) p.hunks) e i)

loop-AllComplete : (r : Result Parser) → Keeps r → AllComplete (r >>= finished)
loop-AllComplete (ok p) h = finished-AllComplete p h
loop-AllComplete (fail e) h = tt

lines-AllComplete :
    (r : Result (List Text)) → AllComplete (r >>= λ lines. (parse_loop start lines >>= finished))
lines-AllComplete (ok lines) =
    loop-AllComplete (parse_loop start lines) (parse_loop-Keeps lines start tt)
lines-AllComplete (fail e) = tt

-- Every hunk of a patch that `parse` accepts is complete: an added file has no chunks and no target,
-- a deleted file nothing but its path, and an updated file has at least one chunk, every chunk
-- with at least one old or new line.
pub parse-IsComplete :
    (text : Text) (hunks : List Hunk) → parse text ≡ ok hunks → All IsComplete hunks
unfolding parse
parse-IsComplete text hunks h =
    subst AllComplete h (lines-AllComplete (boundaries (split_lines (trim_space text))))

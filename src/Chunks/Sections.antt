-- ===== src/Chunks/Sections.antt =====
-- index/chunk.py: a document in sections, at its headings of the first two levels.
use whatfrom.Prelude.{
  ℕ, Bool, true, false, not, ◌&&◌, Option, none, some, List, [], ◌∷◌, ◌++◌, ◌==◌, if◌then◌else◌,
}
use whatfrom.Prelude.Eq.{Text, elem, nat_eq}
use whatfrom.Prelude.Text.{codes, is_nil, starts_with, join}
use whatfrom.Chunks.{lstrip, rstrip, strip}

pub record Section : Type 0 where
  pub title : Text
  pub body : Text

-- `markdown.splitlines()`; the flag says that a carriage return stands before.
abbrev is_break : ℕ → Bool
is_break c = elem c (10 ∷ 11 ∷ 12 ∷ 13 ∷ 28 ∷ 29 ∷ 30 ∷ 133 ∷ 8232 ∷ 8233 ∷ [])

abbrev add_char : ℕ → List Text → List Text
add_char c [] = (c ∷ []) ∷ []
add_char c (line ∷ lines) = (c ∷ line) ∷ lines

abbrev split_lines : Bool → Text → List Text
split_lines after_return [] = []
split_lines after_return (c ∷ t) =
    let next = split_lines (c == 13) t in
    let rest = split_lines false t in
    if after_return && c == 10 then rest else (if is_break c then [] ∷ next else add_char c rest)

-- `FENCE`
abbrev is_fence : Text → Bool
is_fence line = starts_with (codes "```") (lstrip line)

-- `HEADING`, with its groups: after the spaces one character at least, and the white space at the
-- end left aside. Where only spaces follow, the last one is the text.
abbrev skip_spaces : Text → Text
skip_spaces [] = []
skip_spaces (c ∷ t) = let rest = skip_spaces t in if c == b' ' then rest else c ∷ t

abbrev heading_text : Text → Text → Option Text
heading_text [] [] = none
heading_text (c ∷ more) [] = some (codes " ")
heading_text more (c ∷ t) = some (c ∷ rstrip t)

abbrev after_hashes : Text → Option Text
after_hashes [] = none
after_hashes (c ∷ t) = if c == b' ' then heading_text t (skip_spaces t) else none

abbrev with_level : Bool → Option Text → Option (Bool × Text)
with_level is_first none = none
with_level is_first (some t) = some (is_first, t)

-- The flag says that the level is the first.
abbrev match_heading : Text → Option (Bool × Text)
match_heading [] = none
match_heading (c ∷ []) = none
match_heading (c ∷ d ∷ t) =
    if not (c == b'#')
    then none
    else if d == b'#'
    then with_level false (after_hashes t)
    else with_level true (after_hashes (d ∷ t))

-- The variables of the loop.
pub record Cutting : Type 0 where
  pub sections : List Section
  pub current_h1 : Text
  pub title : Option Text
  pub body : List Text
  pub in_fence : Bool

abbrev add_section : Text → Text → List Section → List Section
add_section title text sections =
    if is_nil text then sections else sections ++ record { title = title; body = text } ∷ []

-- `flush`
abbrev flushed : Option Text → List Text → List Section → List Section
flushed none body sections = sections
flushed (some title) body sections = add_section title (strip (join 10 body)) sections

abbrev add_line : Text → Cutting → Cutting
add_line line s = record {
  sections = s.sections;
  current_h1 = s.current_h1;
  title = s.title;
  body = s.body ++ line ∷ [];
  in_fence = s.in_fence;
}

abbrev toggled : Cutting → Cutting
toggled s = record {
  sections = s.sections;
  current_h1 = s.current_h1;
  title = s.title;
  body = s.body;
  in_fence = not s.in_fence;
}

abbrev below : Text → Text → Text
below h1 heading = if is_nil h1 then heading else h1 ++ codes " > " ++ heading

abbrev on_heading : Text → Option (Bool × Text) → Cutting → Cutting
on_heading line none s = add_line line s
on_heading line (some (is_first, heading)) s = record {
  sections = flushed s.title s.body s.sections;
  current_h1 = if is_first then heading else s.current_h1;
  title = some (if is_first then heading else below s.current_h1 heading);
  body = [];
  in_fence = s.in_fence;
}

abbrev on_line : Text → Cutting → Cutting
on_line line s =
    if is_fence line
    then add_line line (toggled s)
    else on_heading line (if s.in_fence then none else match_heading line) s

abbrev on_lines : List Text → Cutting → Cutting
on_lines [] s = s
on_lines (line ∷ lines) s = on_lines lines (on_line line s)

abbrev last_flush : Cutting → List Section
last_flush s = flushed s.title s.body s.sections

abbrev pub split_sections : Text → List Section
split_sections markdown = last_flush (
    on_lines (split_lines false markdown)
      (record { sections = []; current_h1 = []; title = none; body = []; in_fence = false }))

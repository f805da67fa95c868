-- ===== src/ArchiveDemo/Lines.antt =====
-- How demo_archive.py cuts a text into lines, and a line into fields.
use mathlib.Core.List.{append_assoc, append-nil, reverse, reverse-append, reverse-reverse}
use cs4455_epic.Base.{ℕ, ◌≡◌, refl, ap, ◌∙◌, arith, false, [], ◌∷◌, ◌++◌, ◌==◌, All}
use cs4455_epic.Base.Text.{Str, is_space, lstrip, strip}
use cs4455_epic.ArchiveDemo.{is_break, splitlines, split_tab}

-- A character that does not end a line.
abbrev pub IsWithin : ℕ → Type 0
IsWithin c = is_break c ≡ false

-- A character that neither ends a field nor a line.
abbrev pub IsInner : ℕ → Type 0
IsInner c = (is_break c ≡ false) × ((c == 9) ≡ false)

-- A text that begins and ends with no white space.
pub record IsTrim (s : Str) : Type 0 where
  pub first : ℕ
  pub behind : Str
  pub before : Str
  pub last : ℕ
  pub begins : s ≡ first ∷ behind
  pub ends : s ≡ before ++ (last ∷ [])
  pub first_there : is_space first ≡ false
  pub last_there : is_space last ≡ false

lstrip-word : (s behind : Str) (c : ℕ) → s ≡ c ∷ behind → is_space c ≡ false → lstrip s ≡ s
unfolding lstrip
lstrip-word s behind c begins there = rw begins (ground arith)

lstrip-break : (s : Str) → lstrip (10 ∷ s) ≡ lstrip s
unfolding lstrip
lstrip-break s = refl

pub strip-line : (s : Str) → IsTrim s → strip (s ++ (10 ∷ [])) ≡ s
unfolding strip
strip-line s trim =
    let front : lstrip (s ++ (10 ∷ [])) ≡ s ++ (10 ∷ []) =
      lstrip-word (s ++ (10 ∷ [])) (trim.behind ++ (10 ∷ [])) trim.first
        (ap (λ l. l ++ (10 ∷ [])) trim.begins) trim.first_there in
    let turned : reverse s ≡ trim.last ∷ reverse trim.before =
      ap reverse trim.ends ∙ reverse-append trim.before (trim.last ∷ []) in
    let back : lstrip (reverse s) ≡ reverse s =
      lstrip-word (reverse s) (reverse trim.before) trim.last turned trim.last_there in
    ap (λ l. reverse (lstrip (reverse l))) front
    ∙ ap (λ l. reverse (lstrip l)) (reverse-append s (10 ∷ []))
    ∙ ap reverse (lstrip-break (reverse s) ∙ back)
    ∙ reverse-reverse s

pub splitlines-inner :
    (xs line rest : Str)
    → All IsWithin xs
    → splitlines false line (xs ++ rest) ≡ splitlines false (line ++ xs) rest
unfolding splitlines
splitlines-inner [] line rest h = rw (append-nil line) refl
splitlines-inner (c ∷ xs) line rest h =
    ground (arith, splitlines-inner xs (line ++ (c ∷ [])) rest h.1, append_assoc line (c ∷ []) xs)

pub split_tab-inner :
    (xs part rest : Str)
    → All IsInner xs
    → split_tab part (xs ++ rest) ≡ split_tab (part ++ xs) rest
unfolding split_tab
split_tab-inner [] part rest h = rw (append-nil part) refl
split_tab-inner (c ∷ xs) part rest h =
    ground (arith, split_tab-inner xs (part ++ (c ∷ [])) rest h.1, append_assoc part (c ∷ []) xs)

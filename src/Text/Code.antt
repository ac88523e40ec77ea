-- ===== src/Text/Code.antt =====
-- The lines of a Go text that are neither blank nor comments.
use gopkcs.Prelude.{
  ◌≡◌, refl, sym, ap, ◌∙◌, ◌≢◌, inl, inr, Bool, true, ◌&&◌, not, List, [], ◌∷◌, ◌++◌, arith, ◌==◌,
  if◌then◌else◌, Bool-cases, All,
}
use mathlib.Core.List.{append_assoc, append-nil}
use gopkcs.Text.{Bytes, codes, newline, is_empty, has_prefix}

abbrev pub is_code : Bytes → Bool
is_code line = not (is_empty line) && not (has_prefix line (codes "//"))

-- The rest of the text, behind the bytes of the current line.
code_from : Bytes → Bytes → List Bytes
code_from line [] = if is_code line then line ∷ [] else []
code_from line (c ∷ s) =
    let next = code_from [] s in
    let more = code_from (line ++ c ∷ []) s in
    if c == newline then (if is_code line then line ∷ next else next) else more

unfoldable pub code_lines : Bytes → List Bytes
unfolding code_from
code_lines s = code_from [] s

abbrev pub IsLine : Bytes → Type 0
IsLine = All (λ c. c ≢ newline)

-- Text that contributes the given lines of code wherever it stands before other text.
pub record Reads (t : Bytes) (lines : List Bytes) : Type 0 where
  pub reads : (rest : Bytes) → code_lines (t ++ rest) ≡ lines ++ code_lines rest

pub Reads-nil : Reads [] []
Reads-nil = record { reads = λ rest. refl }

pub Reads-append :
    (t u : Bytes) (ls ms : List Bytes) → Reads t ls → Reads u ms → Reads (t ++ u) (ls ++ ms)
Reads-append t u ls ms h k = record {
  reads = λ rest. rw (append_assoc t u rest) (
      h.reads (u ++ rest)
      ∙ ap (λ x. ls ++ x) (k.reads rest)
      ∙ sym (append_assoc ls ms (code_lines rest)));
}

code_from-line :
    (line s rest : Bytes)
    → IsLine s
    → code_from line (s ++ newline ∷ rest)
      ≡ (if is_code (line ++ s) then (line ++ s) ∷ code_from [] rest else code_from [] rest)
unfolding code_from
code_from-line line [] rest h = rw append-nil refl
code_from-line line (c ∷ s) rest (ne, h) = elim (Bool-cases (c == newline)) [
  | inl hit ↦ absurd (ne (ground arith))
  | inr miss ↦ rw miss (
      code_from-line (line ++ c ∷ []) s rest h
      ∙ ap (λ l. if is_code l then l ∷ code_from [] rest else code_from [] rest)
          (append_assoc line (c ∷ []) s))
]

pub Reads-line : (s : Bytes) → IsLine s → is_code s ≡ true → Reads (s ++ newline ∷ []) (s ∷ [])
unfolding code_lines
Reads-line s h e = record {
  reads = λ rest. rw append_assoc (code_from-line [] s rest h ∙ rw e refl);
}

pub Reads-comment : (s : Bytes) → IsLine s → Reads (codes "// " ++ s ++ newline ∷ []) []
unfolding code_lines
Reads-comment s h = record {
  reads = λ rest. rw (append_assoc s (newline ∷ []) rest) (code_from-line (codes "// ") s rest h);
}

pub Reads-blank : Reads (newline ∷ []) []
unfolding code_lines code_from
Reads-blank = record { reads = λ rest. refl }

-- ===== src/Constgen/Entries/Scan.antt =====
-- The scanner's state does not influence what is declared.
use gopkcs.Prelude.{
  ◌≡◌, refl, ap, ◌∙◌, inl, inr, Bool, true, false, ◌&&◌, not, List, [], ◌∷◌, ◌++◌, arith,
  Bool-cases, length, All,
}
use mathlib.Core.List.{append_assoc}
use gopkcs.Text.{Bytes, codes, has_prefix, contains, trim_space, fields}
use gopkcs.Text.Kept.{All-trim_space, All-trim_prefix, All-fields}
use gopkcs.Text.Code.{code_lines, IsLine, Reads, Reads-nil, Reads-comment}
use gopkcs.Constgen.{Gen, before_scan, consts_head, errs_head, scan_line, scan, generate}
use gopkcs.Constgen.Entries.{line_entries, entries, errors, errors_text, const_lines}
use gopkcs.Constgen.Entries.Adds.{Adds, Adds-none, Adds-more}
use gopkcs.Constgen.Entries.Define.{define_line-Adds, Plain, comment_line-Reads}

not_define : (t : Bytes) → has_prefix t (codes "*") ≡ true → has_prefix t (codes "#define") ≡ false
not_define [] h = refl
not_define (c ∷ s) h = ground arith

not_define_open :
    (t : Bytes) → has_prefix t (codes "/*") ≡ true → has_prefix t (codes "#define") ≡ false
not_define_open [] h = refl
not_define_open (c ∷ s) h = ground arith

not_define_close :
    (t : Bytes) → has_prefix t (codes "*/") ≡ true → has_prefix t (codes "#define") ≡ false
not_define_close [] h = refl
not_define_close (c ∷ s) h = ground arith

and_left : (a b : Bool) → (a && b) ≡ true → a ≡ true
and_left a b h = ground arith

scan_line-Adds :
    (line : Bytes) (g : Gen)
    → IsLine line
    → Reads g.comment []
    → Adds (line_entries line) g (scan_line line g)
unfolding scan_line line_entries
scan_line-Adds line g l h =
    let t = trim_space line in
    let plain = All-trim_space Plain line l in
    elim (Bool-cases (has_prefix t (codes "/*") && not (contains t (codes "*/")))) [
      | inl a ↦
          rw (a, not_define_open t (and_left _ _ a), line_entries, scan_line)
            (Adds-none g _ (Reads-comment _ (All-trim_prefix Plain t (codes "/* ") plain)))
      | inr a ↦ elim (Bool-cases (has_prefix t (codes "*") && not (has_prefix t (codes "*/")))) [
        | inl b ↦
            rw (a, b, not_define t (and_left _ _ b), line_entries, scan_line)
              (Adds-none g _
                (comment_line-Reads g.comment _ h (All-trim_prefix Plain t (codes "* ") plain)))
        | inr b ↦ elim (Bool-cases (has_prefix t (codes "*/"))) [
          | inl c ↦
              rw (a, b, c, not_define_close t c, line_entries, scan_line) (Adds-none g g.comment h)
          | inr c ↦ elim (Bool-cases (has_prefix t (codes "#define"))) [
            | inl d ↦
                rw (a, b, c, d, line_entries, scan_line)
                  (define_line-Adds (fields t) g h (All-fields Plain t plain))
            | inr d ↦ rw (a, b, c, d, line_entries, scan_line) (Adds-none g g.comment h)
          ]
        ]
      ]
    ]

scan-Adds :
    (lines : List Bytes) (g : Gen)
    → All IsLine lines
    → Reads g.comment []
    → Adds (entries lines) g (scan lines g)
unfolding scan entries
scan-Adds [] g l h = Adds-none g g.comment h
scan-Adds (line ∷ lines) g (l, ls) h =
    let a = scan_line-Adds line g l h in
    Adds-more (line_entries line) (entries lines) g (scan_line line g) _ a
      (scan-Adds lines (scan_line line g) ls a.comment)

head-lines :
    (rest : Bytes)
    → code_lines (consts_head ++ rest) ≡ codes "package pkcs11" ∷ codes "const (" ∷ code_lines rest
unfolding code_lines
head-lines rest = refl

tail-lines : code_lines (codes ")\n") ≡ codes ")" ∷ []
unfolding code_lines
tail-lines = refl

-- constgen, on lines without line feeds, is equivalent to a reading of each line alone, whatever
-- comments and other lines stand before it: the lines of code of the constants' text are the
-- package clause, the opening, one line for each constant that a line defines, in order, and the
-- closing; the error table has one line for each constant whose name starts with CKR_; and the
-- two counts are the numbers of those.
pub generate-entries :
    (lines : List Bytes)
    → All IsLine lines
    → (code_lines (generate lines).consts
        ≡ codes "package pkcs11" ∷ codes "const (" ∷ const_lines (entries lines) ++ codes ")" ∷ [])
      × ((generate lines).errs ≡ errs_head ++ errors_text (errors (entries lines)) ++ codes "}\n")
      × ((generate lines).const_count ≡ length (entries lines))
      × ((generate lines).error_count ≡ length (errors (entries lines)))
unfolding generate
generate-entries lines l =
    let a = scan-Adds lines before_scan l Reads-nil in
    (
      ap code_lines
            (ap (λ x. x ++ codes ")\n") a.consts ∙ append_assoc consts_head a.extra (codes ")\n"))
          ∙ head-lines (a.extra ++ codes ")\n")
          ∙ ap (λ x. codes "package pkcs11" ∷ codes "const (" ∷ x)
              (a.reads.reads (codes ")\n") ∙ ap (λ x. const_lines (entries lines) ++ x) tail-lines),
      ap (λ x. x ++ codes "}\n") a.errs,
      a.const_count ∙ omega arith,
      a.error_count ∙ omega arith,
    )

-- ===== src/Examples/Headers.antt =====
-- Lines of a header, and codes of errors.
use gopkcs.Prelude.{◌≡◌, refl, some, List, [], ◌∷◌, ◌++◌, arith, length}
use gopkcs.Text.{Bytes, codes, trim_space, fields, replace_all, contains, index, join}
use gopkcs.Text.Code.{code_lines}
use gopkcs.Constgen.{generate, errs_head, go_value}
use gopkcs.Constgen.Entries.{
  entries, line_entries, define_entries, is_constant, before_comment, errors, errors_text,
  const_lines,
}
use gopkcs.Constgen.Entries.Scan.{generate-entries}
use gopkcs.Errors.Text.{error_text}
use gopkcs.Errors.Text.Read.{read_error, read_error-error_text}

abbrev header : List Bytes
header =
    codes "/* The return values"
    ∷ codes " * of a module"
    ∷ codes " */"
    ∷ codes "#define CK_TRUE 1 /* yes */"
    ∷ codes "#define CKR_CANCEL  0x00000001UL"
    ∷ codes "#define CKF_ALL (CKF_A|CKF_B) /* both */"
    ∷ []

-- Both constants are found, in this order.
header-entries :
    entries header
    ≡ (codes "CKR_CANCEL", codes "0x00000001") ∷ (codes "CKF_ALL", codes "CKF_A | CKF_B") ∷ []
unfolding entries line_entries trim_space define_entries fields is_constant go_value replace_all
    contains index before_comment join
header-entries = refl

generate-entries_example :
    (code_lines (generate header).consts
      ≡ codes "package pkcs11" ∷ codes "const (" ∷ const_lines (entries header) ++ codes ")" ∷ [])
    × ((generate header).errs ≡ errs_head ++ errors_text (errors (entries header)) ++ codes "}\n")
    × ((generate header).const_count ≡ length (entries header))
    × ((generate header).error_count ≡ length (errors (entries header)))
generate-entries_example = generate-entries header (omega arith)

read_error-error_text_example : read_error (error_text 0x1a2) ≡ some 0x1a2
read_error-error_text_example = read_error-error_text 0x1a2 (omega arith)

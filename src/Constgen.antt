-- ===== src/Constgen.antt =====
-- cmd/constgen/main.go: the two Go texts that are made of the lines of pkcs11t.h, before gofmt.
pub mod Entries
use gopkcs.Prelude.{
  ℕ, suc, ◌+◌, ◌-◌, ◌*◌, ◌/◌, ◌%◌, ◌^◌, ◌&&◌, ◌||◌, not, none, some, List, [], ◌∷◌, ◌++◌, map, ltb,
  leb, ◌==◌, if◌then◌else◌, length, take, drop,
}
use gopkcs.Text.{
  Bytes, codes, newline, is_empty, ◌===◌, has_prefix, index, contains, trim_prefix, trim_suffix,
  trim_space, fields, join, replace_all,
}

-- The variables of main.
pub record Gen : Type 0 where
  pub consts : Bytes
  pub errs : Bytes
  pub comment : Bytes
  pub last_prefix : Bytes
  pub const_count : ℕ
  pub error_count : ℕ

abbrev line_of : Bytes → Bytes
line_of s = s ++ newline ∷ []

abbrev pub comment_line : Bytes → Bytes
comment_line s = codes "// " ++ s ++ newline ∷ []

abbrev generated : Bytes
generated =
    line_of (codes "// Code generated by \"go run ./cmd/constgen\"; DO NOT EDIT.")
    ++ newline ∷ []
    ++ line_of (codes "//go:build linux")
    ++ newline ∷ []
    ++ line_of (codes "package pkcs11")
    ++ newline ∷ []

abbrev pub consts_head : Bytes
consts_head = generated ++ line_of (codes "const (")

abbrev pub errs_head : Bytes
errs_head =
    generated
    ++ line_of (codes "// strerror maps CKR_* return values to their string names.")
    ++ line_of (codes "var strerror = map[uint]string{")

abbrev pub before_scan : Gen
before_scan = record {
  consts = consts_head;
  errs = errs_head;
  comment = [];
  last_prefix = [];
  const_count = 0;
  error_count = 0;
}

-- Without the C suffixes, casts and operators.
unfoldable pub go_value : Bytes → Bytes
go_value value =
    let value = if contains value (codes "~0") then codes "^uint(0)" else value in
    let value = replace_all value (codes "UL)") (codes ")") in
    let value = replace_all value (codes "UL|") (codes "|") in
    let value = trim_suffix value (codes "UL") in
    let value =
      if value === codes "^uint(0)"
      then value
      else replace_all (replace_all value (codes "(") []) (codes ")") [] in
    replace_all value (codes "|") (codes " | ")

abbrev pub inline_comment : Bytes → Bytes
inline_comment value =
    trim_suffix (trim_suffix (trim_prefix (trim_space value) (codes "/* ")) (codes " */"))
      (codes "*/")

abbrev hex_digit : ℕ → ℕ
hex_digit d = if ltb d 10 then b'0' + d else b'a' + (d - 10)

-- One byte of an ASCII text in the verb %q.
abbrev quote_byte : ℕ → Bytes
quote_byte c =
    if c == b'"' || c == b'\\'
    then b'\\' ∷ c ∷ []
    else if c == 7
    then codes "\\a"
    else if c == 8
    then codes "\\b"
    else if c == 9
    then codes "\\t"
    else if c == 10
    then codes "\\n"
    else if c == 11
    then codes "\\v"
    else if c == 12
    then codes "\\f"
    else if c == 13
    then codes "\\r"
    else if ltb c 32 || c == 127
    then codes "\\x" ++ hex_digit (c / 16) ∷ hex_digit (c % 16) ∷ []
    else c ∷ []

abbrev quote_bytes : Bytes → Bytes
quote_bytes [] = []
quote_bytes (c ∷ s) = quote_byte c ++ quote_bytes s

abbrev quote : Bytes → Bytes
quote s = b'"' ∷ quote_bytes s ++ b'"' ∷ []

abbrev pub const_line : Bytes → Bytes → Bytes
const_line name value = 9 ∷ name ++ codes " = " ++ value

unfoldable pub error_line : Bytes → Bytes
error_line name = 9 ∷ name ++ codes ": " ++ quote name ++ codes ",\n"

-- The blank line before a name of another prefix.
abbrev pub gap : Bytes → Bytes → Bytes
gap prefix last = if not (prefix === last) && not (is_empty last) then newline ∷ [] else []

unfoldable pub emit : Bytes → Bytes → Gen → Gen
emit name value g = record {
  consts =
      g.consts
      ++ (if leb 3 (length name) then gap (take 3 name) g.last_prefix else [])
      ++ g.comment
      ++ (const_line name value ++ newline ∷ []);
  errs = if has_prefix name (codes "CKR_") then g.errs ++ error_line name else g.errs;
  comment = [];
  last_prefix = if leb 3 (length name) then take 3 name else g.last_prefix;
  const_count = suc g.const_count;
  error_count = if has_prefix name (codes "CKR_") then suc g.error_count else g.error_count;
}

-- From the special cases on.
unfoldable pub write_constant : Bytes → Bytes → Gen → Gen
write_constant name value g =
    if name === codes "CK_TRUE"
      || name === codes "CK_FALSE"
      || name === codes "FALSE"
      || name === codes "TRUE"
    then g
    else emit name (go_value value) g

-- The inline comment is kept for the next constant that is written.
unfoldable pub define_constant : Bytes → Bytes → Gen → Gen
define_constant name value g = elim (index value (codes "/*")) [
  | none ↦ write_constant name value g
  | some idx ↦
      let text = inline_comment (drop idx value) in
      write_constant name (trim_space (take idx value))
        (record g { comment = if is_empty text then g.comment else g.comment ++ comment_line text })
]

-- The fields of a line that starts with #define.
unfoldable pub define_line : List Bytes → Gen → Gen
define_line [] g = g
define_line (a ∷ []) g = g
define_line (a ∷ name ∷ []) g = g
define_line (a ∷ name ∷ v ∷ rest) g =
    if ltb (length name) 3 || not (has_prefix name (codes "CK"))
    then g
    else if name === codes "CK_PTR" || name === codes "CK_DISABLE_TRUE_FALSE"
    then g
    else define_constant name (join (v ∷ rest) (codes " ")) g

-- The body of the loop.
unfoldable pub scan_line : Bytes → Gen → Gen
scan_line line g =
    let trimmed = trim_space line in
    if has_prefix trimmed (codes "/*") && not (contains trimmed (codes "*/"))
    then record g { comment = comment_line (trim_prefix trimmed (codes "/* ")) }
    else if has_prefix trimmed (codes "*") && not (has_prefix trimmed (codes "*/"))
    then record g { comment = g.comment ++ comment_line (trim_prefix trimmed (codes "* ")) }
    else if has_prefix trimmed (codes "*/")
    then g
    else if not (has_prefix trimmed (codes "#define"))
    then g
    else define_line (fields trimmed) g

unfoldable pub scan : List Bytes → Gen → Gen
scan [] g = g
scan (line ∷ lines) g = scan lines (scan_line line g)

-- The buffers and the counts at the end, from the lines that the scanner delivers.
unfoldable pub generate : List Bytes → Gen
unfolding scan
generate lines =
    let g = scan lines before_scan in
    record g { consts = g.consts ++ codes ")\n"; errs = g.errs ++ codes "}\n" }

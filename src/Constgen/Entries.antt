-- ===== src/Constgen/Entries.antt =====
-- What one line of pkcs11t.h declares, whatever stands before it.
pub mod Adds
pub mod Define
pub mod Scan
use gopkcs.Prelude.{
  ◌+◌, ◌*◌, ◌/◌, Bool, ◌&&◌, ◌||◌, not, none, some, List, [], ◌∷◌, ◌++◌, ltb, ◌==◌, if◌then◌else◌,
  length, take,
}
use gopkcs.Text.{Bytes, codes, newline, ◌===◌, has_prefix, index, trim_space, fields, join}
use gopkcs.Constgen.{go_value, const_line, error_line}

abbrev pub Entry : Type 0
Entry = Bytes × Bytes

abbrev pub is_macro : Bytes → Bool
is_macro name =
    name === codes "CK_PTR"
    || name === codes "CK_DISABLE_TRUE_FALSE"
    || name === codes "CK_TRUE"
    || name === codes "CK_FALSE"

unfoldable pub is_constant : Bytes → Bool
is_constant name = not (ltb (length name) 3) && has_prefix name (codes "CK") && not (is_macro name)

unfoldable pub before_comment : Bytes → Bytes
before_comment value = elim (index value (codes "/*")) [
  | none ↦ value
  | some idx ↦ trim_space (take idx value)
]

unfoldable pub define_entries : List Bytes → List Entry
define_entries [] = []
define_entries (a ∷ []) = []
define_entries (a ∷ name ∷ []) = []
define_entries (a ∷ name ∷ v ∷ rest) =
    if is_constant name
    then (name, go_value (before_comment (join (v ∷ rest) (codes " ")))) ∷ []
    else []

-- One entry at most.
unfoldable pub line_entries : Bytes → List Entry
line_entries line =
    let trimmed = trim_space line in
    if has_prefix trimmed (codes "#define") then define_entries (fields trimmed) else []

unfoldable pub entries : List Bytes → List Entry
entries [] = []
entries (line ∷ lines) = line_entries line ++ entries lines

-- The return values among them.
unfoldable pub errors : List Entry → List Entry
errors [] = []
errors (e ∷ es) = if has_prefix e.0 (codes "CKR_") then e ∷ errors es else errors es

unfoldable pub errors_text : List Entry → Bytes
errors_text [] = []
errors_text (e ∷ es) = error_line e.0 ++ errors_text es

unfoldable pub const_lines : List Entry → List Bytes
const_lines [] = []
const_lines (e ∷ es) = const_line e.0 e.1 ∷ const_lines es

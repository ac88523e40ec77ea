-- ===== src/Constgen/Entries/Define.antt =====
-- What a definition of pkcs11t.h adds to the two texts.
use gopkcs.Prelude.{
  ℕ, ◌≡◌, refl, ◌≢◌, inl, inr, Bool, true, false, ◌&&◌, ◌||◌, not, List, [], ◌∷◌, ◌++◌, arith, ltb,
  if◌then◌else◌, Bool-cases, Option-cases, length, take, drop, All, All-take, All-drop,
}
use gopkcs.Text.{
  Bytes, codes, newline, is_empty, ◌===◌, has_prefix, index, contains, trim_space, join,
}
use gopkcs.Text.Kept.{
  All-if, All-trim_space, All-trim_prefix, All-trim_suffix, All-join, All-replace_all,
}
use gopkcs.Text.Code.{IsLine, Reads, Reads-append, Reads-comment}
use gopkcs.Constgen.{
  Gen, go_value, comment_line, inline_comment, write_constant, define_constant, define_line,
}
use gopkcs.Constgen.Entries.{Entry, is_constant, before_comment, define_entries}
use gopkcs.Constgen.Entries.Adds.{Adds, Adds-none, emit-Adds}

abbrev pub Plain : ℕ → Type 0
Plain c = c ≢ newline

go_value-IsLine : (value : Bytes) → IsLine value → IsLine (go_value value)
unfolding go_value
go_value-IsLine value h =
    let a = All-if Plain (contains value (codes "~0")) (codes "^uint(0)") value (omega arith) h in
    let b = All-replace_all Plain _ (codes "UL)") (codes ")") a (omega arith) in
    let c = All-replace_all Plain _ (codes "UL|") (codes "|") b (omega arith) in
    let d = All-trim_suffix Plain _ (codes "UL") c in
    let e = All-replace_all Plain _ (codes "(") [] d tt in
    let f = All-replace_all Plain _ (codes ")") [] e tt in
    All-replace_all Plain _ (codes "|") (codes " | ") (All-if Plain _ _ _ d f) (omega arith)

inline_comment-IsLine : (value : Bytes) → IsLine value → IsLine (inline_comment value)
inline_comment-IsLine value h = All-trim_suffix Plain _ (codes "*/") (
    All-trim_suffix Plain _ (codes " */")
      (All-trim_prefix Plain _ (codes "/* ") (All-trim_space Plain value h)))

before_comment-IsLine : (value : Bytes) → IsLine value → IsLine (before_comment value)
unfolding before_comment
before_comment-IsLine value h = elim (Option-cases (index value (codes "/*"))) [
  | inl e ↦ rw (e, before_comment) h
  | inr (idx, e) ↦ rw (e, before_comment) (All-trim_space Plain _ (All-take Plain idx value h))
]

pub comment_line-Reads : (c t : Bytes) → Reads c [] → IsLine t → Reads (c ++ comment_line t) []
comment_line-Reads c t h l = Reads-append c (comment_line t) [] [] h (Reads-comment t l)

not_false : (name : Bytes) → has_prefix name (codes "CK") ≡ true → (name === codes "FALSE") ≡ false
not_false [] h = refl
not_false (c ∷ s) h = ground arith

not_true : (name : Bytes) → has_prefix name (codes "CK") ≡ true → (name === codes "TRUE") ≡ false
not_true [] h = refl
not_true (c ∷ s) h = ground arith

or_split : (a b : Bool) → (a || b) ≡ false → (a ≡ false) × (b ≡ false)
or_split true b h = cc
or_split false true h = cc
or_split false false h = (refl, refl)

or_left : (a b : Bool) → a ≡ true → (a || b) ≡ true
or_left true b h = refl
or_left false b h = cc

-- A name that is passed over at the end, and one that is not.
abbrev is_special : Bytes → Bool
is_special name =
    name === codes "CK_TRUE"
    || name === codes "CK_FALSE"
    || name === codes "FALSE"
    || name === codes "TRUE"

module _ (name : Bytes) (g : Gen) (h : Reads g.comment []) where
  write_constant-special :
      (value : Bytes) → is_special name ≡ true → Adds [] g (write_constant name value g)
  unfolding write_constant
  write_constant-special value e = rw e (Adds-none g g.comment h)

  write_constant-Adds :
      (value : Bytes)
      → IsLine name
      → IsLine value
      → is_special name ≡ false
      → Adds ((name, go_value value) ∷ []) g (write_constant name value g)
  unfolding write_constant
  write_constant-Adds value n v e =
      rw e (emit-Adds name (go_value value) g h n (go_value-IsLine value v))

noted-Reads :
    (c t : Bytes) → Reads c [] → IsLine t → Reads (if is_empty t then c else c ++ comment_line t) []
noted-Reads c t h l = elim (Bool-cases (is_empty t)) [
  | inl e ↦ rw e h
  | inr e ↦ rw e (comment_line-Reads c t h l)
]

Adds-comment :
    (es : List Entry) (g k : Gen) (c : Bytes) → Adds es (record g { comment = c }) k → Adds es g k
Adds-comment es g k c a = record {
  extra = a.extra;
  consts = a.consts;
  reads = a.reads;
  errs = a.errs;
  comment = a.comment;
  const_count = a.const_count;
  error_count = a.error_count;
}

define_constant-Adds :
    (name value : Bytes) (g : Gen) (es : Bytes → List Entry)
    → Reads g.comment []
    → IsLine value
    → ((k : Gen) (v : Bytes)
        → Reads k.comment []
        → IsLine v
        → Adds (es v) k (write_constant name v k))
    → Adds (es (before_comment value)) g (define_constant name value g)
unfolding define_constant before_comment
define_constant-Adds name value g es h l next = elim (Option-cases (index value (codes "/*"))) [
  | inl e ↦ rw (e, before_comment, define_constant) (next g value h l)
  | inr (idx, e) ↦
      rw (e, before_comment, define_constant)
        (Adds-comment (es (trim_space (take idx value))) g _ _ (
          next _ (trim_space (take idx value))
            (noted-Reads g.comment (inline_comment (drop idx value)) h
              (inline_comment-IsLine _ (All-drop Plain idx value l)))
            (All-trim_space Plain _ (All-take Plain idx value l))))
]

guards_of :
    (short ck p m t f x y : Bool)
    → (not short && ck && not (p || m || t || f)) ≡ true
    → x ≡ false
    → y ≡ false
    → ((short || not ck) ≡ false) × ((p || m) ≡ false) × ((t || f || x || y) ≡ false)
guards_of short ck p m t f x y h k l = (ground arith, ground arith, ground arith)

prefix_of : (short ck macro : Bool) → (not short && ck && not macro) ≡ true → ck ≡ true
prefix_of short ck macro h = ground arith

passed_of :
    (short ck p m t f x y : Bool)
    → (not short && ck && not (p || m || t || f)) ≡ false
    → (short || not ck) ≡ false
    → (p || m) ≡ false
    → (t || f || x || y) ≡ true
passed_of short ck p m t f x y h k l = ground arith

-- What the guards of a definition say together.
guards :
    (name : Bytes)
    → (is_constant name ≡ true)
    → ((ltb (length name) 3 || not (has_prefix name (codes "CK"))) ≡ false)
      × ((name === codes "CK_PTR" || name === codes "CK_DISABLE_TRUE_FALSE") ≡ false)
      × (is_special name ≡ false)
unfolding is_constant
guards name h =
    let ck = prefix_of (ltb (length name) 3) (has_prefix name (codes "CK")) _ h in
    guards_of (ltb (length name) 3) (has_prefix name (codes "CK")) (name === codes "CK_PTR")
      (name === codes "CK_DISABLE_TRUE_FALSE") (name === codes "CK_TRUE")
      (name === codes "CK_FALSE") (name === codes "FALSE") (name === codes "TRUE") h
      (not_false name ck) (not_true name ck)

passed_over :
    (name : Bytes)
    → (is_constant name ≡ false)
    → ((ltb (length name) 3 || not (has_prefix name (codes "CK"))) ≡ false)
    → ((name === codes "CK_PTR" || name === codes "CK_DISABLE_TRUE_FALSE") ≡ false)
    → is_special name ≡ true
unfolding is_constant
passed_over name h k l =
    passed_of (ltb (length name) 3) (has_prefix name (codes "CK")) (name === codes "CK_PTR")
      (name === codes "CK_DISABLE_TRUE_FALSE") (name === codes "CK_TRUE")
      (name === codes "CK_FALSE") (name === codes "FALSE") (name === codes "TRUE") h k l

pub define_line-Adds :
    (fs : List Bytes) (g : Gen)
    → Reads g.comment []
    → All IsLine fs
    → Adds (define_entries fs) g (define_line fs g)
unfolding define_line define_entries
define_line-Adds [] g h l = Adds-none g g.comment h
define_line-Adds (a ∷ []) g h l = Adds-none g g.comment h
define_line-Adds (a ∷ name ∷ []) g h l = Adds-none g g.comment h
define_line-Adds (a ∷ name ∷ v ∷ rest) g h (_, (n, ls)) =
    let line = All-join Plain (v ∷ rest) (codes " ") ls (omega arith) in
    elim (Bool-cases (is_constant name)) [
      | inl e ↦
          (let (a, b, c) = guards name e in
            rw (e, a, b, define_entries, define_line)
              (define_constant-Adds name (join (v ∷ rest) (codes " ")) g
                (λ v. (name, go_value v) ∷ []) h line
                (λ k v r l. write_constant-Adds name k r v n l c)))
      | inr e ↦
          rw (e, define_entries)
            (elim (Bool-cases (ltb (length name) 3 || not (has_prefix name (codes "CK")))) [
              | inl b ↦ rw (b, define_line) (Adds-none g g.comment h)
              | inr b ↦
                  elim (Bool-cases
                    (name === codes "CK_PTR" || name === codes "CK_DISABLE_TRUE_FALSE")) [
                      | inl c ↦ rw (b, c, define_line) (Adds-none g g.comment h)
                      | inr c ↦
                          rw (b, c, define_line)
                            (define_constant-Adds name (join (v ∷ rest) (codes " ")) g (λ v. []) h
                              line
                              (λ k v r l.
                                write_constant-special name k r v (passed_over name e b c)))
                    ]
            ])
    ]

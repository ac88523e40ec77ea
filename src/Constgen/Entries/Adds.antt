-- ===== src/Constgen/Entries/Adds.antt =====
-- What the emission of a constant adds to the two texts.
use gopkcs.Prelude.{
  ◌+◌, ◌≡◌, refl, sym, ap, ◌∙◌, ◌≢◌, inl, inr, ◌&&◌, not, List, [], ◌∷◌, ◌++◌, arith, leb,
  if◌then◌else◌, Bool-cases, length, length-append, take, All-append,
}
use mathlib.Core.List.{append_assoc, append-nil}
use gopkcs.Text.{Bytes, codes, newline, is_empty, ◌===◌, has_prefix}
use gopkcs.Text.Code.{Reads-blank, IsLine, Reads, Reads-nil, Reads-append, Reads-line}
use gopkcs.Constgen.{Gen, const_line, error_line, gap, emit}
use gopkcs.Constgen.Entries.{Entry, errors, errors_text, const_lines}

pub errors-append : (es fs : List Entry) → errors (es ++ fs) ≡ errors es ++ errors fs
unfolding errors
errors-append [] fs = refl
errors-append (e ∷ es) fs = ground (arith, errors-append es fs)

pub errors_text-append :
    (es fs : List Entry) → errors_text (es ++ fs) ≡ errors_text es ++ errors_text fs
unfolding errors_text
errors_text-append [] fs = refl
errors_text-append (e ∷ es) fs =
    rw (errors_text-append es fs) (sym (append_assoc (error_line e.0) _ _))

pub const_lines-append :
    (es fs : List Entry) → const_lines (es ++ fs) ≡ const_lines es ++ const_lines fs
unfolding const_lines
const_lines-append [] fs = refl
const_lines-append (e ∷ es) fs = rw (const_lines-append es fs) refl

-- From g to g' the entries have been added, and the comment that is pending is no code.
pub record Adds (es : List Entry) (g g' : Gen) : Type 0 where
  pub extra : Bytes
  pub consts : g'.consts ≡ g.consts ++ extra
  pub reads : Reads extra (const_lines es)
  pub errs : g'.errs ≡ g.errs ++ errors_text (errors es)
  pub comment : Reads g'.comment []
  pub const_count : g'.const_count ≡ g.const_count + length es
  pub error_count : g'.error_count ≡ g.error_count + length (errors es)

-- A line that declares nothing may change the comment.
pub Adds-none : (g : Gen) (c : Bytes) → Reads c [] → Adds [] g (record g { comment = c })
unfolding errors errors_text const_lines
Adds-none g c h = record {
  extra = [];
  consts = sym (append-nil g.consts);
  reads = Reads-nil;
  errs = sym (append-nil g.errs);
  comment = h;
  const_count = omega arith;
  error_count = omega arith;
}

pub Adds-more : (es fs : List Entry) (g k l : Gen) → Adds es g k → Adds fs k l → Adds (es ++ fs) g l
Adds-more es fs g k l a b = record {
  extra = a.extra ++ b.extra;
  consts = b.consts ∙ ap (λ x. x ++ b.extra) a.consts ∙ append_assoc g.consts a.extra b.extra;
  reads = rw const_lines-append (Reads-append a.extra b.extra _ _ a.reads b.reads);
  errs =
      b.errs
      ∙ ap (λ x. x ++ errors_text (errors fs)) a.errs
      ∙ append_assoc g.errs (errors_text (errors es)) (errors_text (errors fs))
      ∙ sym (
          ap (λ x. g.errs ++ x)
            (ap errors_text (errors-append es fs) ∙ errors_text-append (errors es) (errors fs)));
  comment = b.comment;
  const_count = omega (arith, a.const_count, b.const_count, length-append es fs);
  error_count = omega (
    arith,
    a.error_count,
    b.error_count,
    ap length (errors-append es fs),
    length-append (errors es) (errors fs),
  );
}

-- The text that emit appends to consts.
emitted : Bytes → Bytes → Gen → Bytes
emitted name value g =
    (if leb 3 (length name) then gap (take 3 name) g.last_prefix else [])
    ++ g.comment
    ++ (const_line name value ++ newline ∷ [])

gap-Reads : (prefix last : Bytes) → Reads (gap prefix last) []
gap-Reads prefix last = elim (Bool-cases (not (prefix === last) && not (is_empty last))) [
  | inl hit ↦ rw hit Reads-blank
  | inr miss ↦ rw miss Reads-nil
]

front-Reads :
    (name last : Bytes) → Reads (if leb 3 (length name) then gap (take 3 name) last else []) []
front-Reads name last = elim (Bool-cases (leb 3 (length name))) [
  | inl hit ↦ rw hit (gap-Reads (take 3 name) last)
  | inr miss ↦ rw miss Reads-nil
]

const_line-IsLine :
    (name value : Bytes) → IsLine name → IsLine value → IsLine (const_line name value)
const_line-IsLine name value n v = (
  λ e. omega (arith, e),
  All-append (λ c. c ≢ newline) (name ++ codes " = ") value
      (All-append (λ c. c ≢ newline) name (codes " = ") n (omega arith)) v,
)

regroup : (a b c d : Bytes) → a ++ b ++ c ++ d ≡ a ++ (b ++ c ++ d)
regroup a b c d = rw (append_assoc a b c, append_assoc a (b ++ c) d) refl

pub emit-Adds :
    (name value : Bytes) (g : Gen)
    → Reads g.comment []
    → IsLine name
    → IsLine value
    → Adds ((name, value) ∷ []) g (emit name value g)
unfolding emit emitted errors errors_text const_lines
emit-Adds name value g h n v = record {
  extra = emitted name value g;
  consts = regroup g.consts _ g.comment _;
  reads =
      Reads-append _ _ [] _ (Reads-append _ _ [] [] (front-Reads name g.last_prefix) h)
        (Reads-line (const_line name value) (const_line-IsLine name value n v) refl);
  errs = elim (Bool-cases (has_prefix name (codes "CKR_"))) [
    | inl hit ↦ rw hit (ap (λ x. g.errs ++ x) (sym (append-nil (error_line name))))
    | inr miss ↦ rw miss (sym (append-nil g.errs))
  ];
  comment = Reads-nil;
  const_count = omega arith;
  error_count = ground arith;
}

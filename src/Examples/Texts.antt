-- ===== src/Examples/Texts.antt =====
-- trimPaddedString and padString on a label.
use gopkcs.Prelude.{ℕ, ◌≡◌, List, [], ◌∷◌, arith, get_or}
use gopkcs.Types.Padding.{
  space, IsTrimmed, trim_padded_string, pad_string, trim_padded_string-pad_string,
}

abbrev pub label : List ℕ
label = b'H' ∷ b'S' ∷ b'M' ∷ b' ' ∷ b'1' ∷ []

pub label-IsTrimmed : IsTrimmed label
label-IsTrimmed e h q =
    let last : e ≡ 4 = omega arith in
    let here : get_or label 4 0 ≡ space = rw last at q in omega (arith, here)

trim_padded_string-pad_string_example : trim_padded_string (pad_string label 32) ≡ label
trim_padded_string-pad_string_example =
    trim_padded_string-pad_string label 32 (omega arith) label-IsTrimmed

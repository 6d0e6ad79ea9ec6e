-- ===== src/Tests/Text.antt =====
-- Numbers and formats on concrete data.
use ghittle.Base.{◌≡◌, refl, true, none, some, List, [], ◌∷◌, ◌++◌, length, arith}
use ghittle.Base.Int.{negsuc}
use ghittle.Base.Text.{codes}
use ghittle.Str.{itos, stoi}
use ghittle.Str.Numbers.{stoi-itos}
use ghittle.Str.Format.{vsprintf, text, number}
use ghittle.Str.Format.Pieces.{Piece, byte, percent, string, decimal, output, vsprintf_lem}
use ghittle.Str.Unsigned.{dqtos, hqtos}

stoi-itos_example : stoi (itos (negsuc 4094) true) ≡ negsuc 4094
stoi-itos_example = stoi-itos (negsuc 4094) true (omega arith, omega arith)

minus_hex : itos (negsuc 4094) true ≡ codes "-0xFFF"
unfolding itos
minus_hex = refl

-- "%d:%s%%"
abbrev line : List Piece
line = decimal true (negsuc 41) ∷ byte b':' ∷ string (codes "ok") ∷ percent ∷ []

vsprintf_lem_example :
    vsprintf (codes "%d:%s%%") (number (negsuc 41) ∷ text (codes "ok") ∷ [])
    ≡ some (length (output line), output line ++ (0 ∷ []))
vsprintf_lem_example =
    vsprintf_lem line
      (omega arith, ((ground arith, ground arith), ((ground arith, (ground arith, tt)), (tt, tt))))

line_shown : output line ≡ codes "-42:ok%"
unfolding itos
line_shown = refl

-- `dqtos` loses the zeros at the end, and `hqtos` divides by 0.
zeros_lost : dqtos 1200 ≡ some (codes "12")
unfolding dqtos
zeros_lost = refl

zero_divided : hqtos 17 ≡ none
unfolding hqtos
zero_divided = refl

-- ===== src/Tests/Strings.antt =====
-- The C strings at concrete inputs.
use libcsp_rust.Base.{ℕ, ◌≡◌, inl, inr, refl, arith, List, [], ◌∷◌, ◌++◌, none, some, drop}
use libcsp_rust.Arch.CString.{strncpy}
use libcsp_rust.Arch.CString.Spec.{chars, HasNul, padded}
use libcsp_rust.Arch.CString.Copy.{strncpy_lem}
use libcsp_rust.Arch.CString.Token.{IsDelim, IsChar}
use libcsp_rust.Arch.CString.Split.{gather, Text, last, more, render, words, gather_lem}

-- "hi" and "HI"
abbrev lower_hi : List ℕ
lower_hi = 104 ∷ 105 ∷ 0 ∷ []

abbrev upper_hi : List ℕ
upper_hi = 72 ∷ 73 ∷ 0 ∷ []

abbrev five : List ℕ
five = 1 ∷ 2 ∷ 3 ∷ 4 ∷ 5 ∷ []

strncpy_example : strncpy five lower_hi 4 ≡ some (padded 4 (chars lower_hi) ++ drop 4 five)
strncpy_example = strncpy_lem five lower_hi 4 (omega arith) (inr (inr (inl refl)))

-- "a,,b", with "," as the delimiters
abbrev comma : List ℕ
comma = 44 ∷ 0 ∷ []

abbrev letters : Text
letters = more [] 97 [] 44 (last (44 ∷ []) 98 [] [])

comma-IsDelim : IsDelim comma 44
comma-IsDelim = (ground arith, refl)

letter-IsChar : IsChar comma 97 × IsChar comma 98
letter-IsChar = ((ground arith, refl), (ground arith, refl))

comma-HasNul : HasNul comma
comma-HasNul = inr (inl refl)

gather_example : gather 3 9 (render letters) (some 0) comma none ≡ some (words letters)
gather_example =
    gather_lem comma comma-HasNul letters 3 9
      (tt, letter-IsChar.0, tt, comma-IsDelim, ((comma-IsDelim, tt), letter-IsChar.1, tt))
      (omega arith, omega arith) (omega arith)

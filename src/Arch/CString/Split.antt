-- ===== src/Arch/CString/Split.antt =====
-- All the tokens of a string, by calls of `strtok_r` as its documentation asks: the string first,
-- then null until null comes back.
use libcsp_rust.Base.{
  ℕ, zero, suc, ◌+◌, ◌<◌, List, [], ◌∷◌, ◌++◌, ◌≡◌, ◌⊎◌, inl, inr, refl, arith, Option, none, some,
  length, ap, ◌∙◌, All, append_assoc, length-append, drop, drop-append,
}
use libcsp_rust.Arch.CString.{◌>>=◌, strtok_from, strtok_r}
use libcsp_rust.Arch.CString.Spec.{chars, HasNul, get_elem?-append}
use libcsp_rust.Arch.CString.Token.{IsDelim, IsChar, ne-zero, skip_lem, find_nul, find_delim}

-- The calls, with a bound on their number; each token is read as a C string when it is returned.
unfoldable pub gather : ℕ → ℕ → List ℕ → Option ℕ → List ℕ → Option ℕ → Option (List (List ℕ))
gather zero fuel buf s delim saveptr = none
gather (suc calls) fuel buf s delim saveptr = do
  t ← strtok_r fuel buf s delim saveptr
  elim t.token [
    | none ↦ some []
    | some o ↦
        gather calls fuel t.buf none delim t.saveptr >>= λ ws. some (chars (drop o t.buf) ∷ ws)
  ]

-- A string taken apart: leading delimiters, then nothing, a last word, or a word, the delimiter
-- that ends it, and more text.
pub data Text : Type 0 where
  done : List ℕ → List ℕ → Text
  last : List ℕ → ℕ → List ℕ → List ℕ → Text
  more : List ℕ → ℕ → List ℕ → ℕ → Text → Text

abbrev pub render : Text → List ℕ
render (done lead rest) = lead ++ (0 ∷ rest)
render (last lead c tok rest) = lead ++ (c ∷ tok ++ (0 ∷ rest))
render (more lead c tok d text) = lead ++ (c ∷ tok ++ (d ∷ render text))

abbrev pub words : Text → List (List ℕ)
words (done lead rest) = []
words (last lead c tok rest) = (c ∷ tok) ∷ []
words (more lead c tok d text) = (c ∷ tok) ∷ words text

length-prefix :
    (pre lead : List ℕ) (p : ℕ) → p ≡ length pre → p + length lead ≡ length (pre ++ lead)
length-prefix pre lead p e = omega (arith, length-append pre lead)

start :
    (fuel : ℕ) (buf : List ℕ) (p : ℕ) (s saveptr : Option ℕ) (delim : List ℕ)
    → ((s ≡ some p) ⊎ ((s ≡ none) × (saveptr ≡ some p)))
    → strtok_r fuel buf s delim saveptr ≡ strtok_from fuel buf delim p
unfolding strtok_r
start fuel buf p s saveptr delim (inl e) = rw e refl
start fuel buf p s saveptr delim (inr (e, k)) = rw (e, k) refl

module _ (delim : List ℕ) where
  abbrev pub IsText : Text → Type 0
  IsText (done lead rest) = All (IsDelim delim) lead
  IsText (last lead c tok rest) = All (IsDelim delim) lead × IsChar delim c × All (IsChar delim) tok
  IsText (more lead c tok d text) =
      All (IsDelim delim) lead
      × IsChar delim c
      × All (IsChar delim) tok
      × IsDelim delim d
      × IsText text

  -- Fuel that is enough for every loop of every call.
  abbrev pub Fuelled : ℕ → Text → Type 0
  Fuelled fuel (done lead rest) = length lead < fuel
  Fuelled fuel (last lead c tok rest) = length lead + length tok + 1 < fuel
  Fuelled fuel (more lead c tok d text) = (length lead + length tok + 1 < fuel) × Fuelled fuel text

module _ (delim : List ℕ) (nul : HasNul delim) where
  -- The token is read back up to the NUL behind it.
  chars_word : (tok rest : List ℕ) → All (IsChar delim) tok → chars (tok ++ (0 ∷ rest)) ≡ tok
  chars_word [] rest cs = refl
  chars_word (c ∷ tok) rest ((ne, char), cs) =
      rw (ne-zero c ne) (ap (λ t. c ∷ t) (chars_word tok rest cs))

  strtok-done :
      (fuel p : ℕ) (pre lead rest : List ℕ)
      → p ≡ length pre
      → length lead < fuel
      → All (IsDelim delim) lead
      → let buf = pre ++ (lead ++ (0 ∷ rest)) in
        strtok_from fuel buf delim p ≡ some (record { buf = buf; saveptr = none; token = none })
  unfolding strtok_from
  strtok-done fuel p pre lead rest e f ds =
      let at = length-prefix pre lead p e in
      rw
        (
          skip_lem delim nul fuel p pre lead 0 rest e f ds (inl refl),
          ← append_assoc pre lead (0 ∷ rest),
          get_elem?-append (pre ++ lead) (p + length lead) 0 rest at,
        )
        refl

  strtok-last :
      (fuel p : ℕ) (pre lead : List ℕ) (c : ℕ) (tok rest : List ℕ)
      → p ≡ length pre
      → length lead + length tok + 1 < fuel
      → All (IsDelim delim) lead
      → IsChar delim c
      → All (IsChar delim) tok
      → let buf = pre ++ (lead ++ (c ∷ tok ++ (0 ∷ rest))) in
        strtok_from fuel buf delim p
        ≡ some (record {
          buf = buf;
          saveptr = some (p + length lead + length (c ∷ tok));
          token = some (p + length lead);
        })
  unfolding strtok_from
  strtok-last fuel p pre lead c tok rest e f ds h cs =
      let at = length-prefix pre lead p e in
      rw
        (
          skip_lem delim nul fuel p pre lead c (tok ++ (0 ∷ rest)) e (omega arith) ds (inr h),
          ← append_assoc pre lead (c ∷ tok ++ (0 ∷ rest)),
          get_elem?-append (pre ++ lead) (p + length lead) c (tok ++ (0 ∷ rest)) at,
          ne-zero c h.0,
          find_nul delim nul fuel (p + length lead) (pre ++ lead) (c ∷ tok) rest at (omega arith)
              (h, cs),
        )
        refl

  strtok-more :
      (fuel p : ℕ) (pre lead : List ℕ) (c : ℕ) (tok : List ℕ) (d : ℕ) (rest : List ℕ)
      → p ≡ length pre
      → length lead + length tok + 1 < fuel
      → All (IsDelim delim) lead
      → IsChar delim c
      → All (IsChar delim) tok
      → IsDelim delim d
      → strtok_from fuel (pre ++ (lead ++ (c ∷ tok ++ (d ∷ rest)))) delim p
        ≡ some (record {
          buf = pre ++ (lead ++ (c ∷ tok ++ (0 ∷ rest)));
          saveptr = some (p + length lead + length (c ∷ tok) + 1);
          token = some (p + length lead);
        })
  unfolding strtok_from
  strtok-more fuel p pre lead c tok d rest e f ds h cs hd =
      let at = length-prefix pre lead p e in
      rw
        (
          skip_lem delim nul fuel p pre lead c (tok ++ (d ∷ rest)) e (omega arith) ds (inr h),
          ← append_assoc pre lead (c ∷ tok ++ (d ∷ rest)),
          ← append_assoc pre lead (c ∷ tok ++ (0 ∷ rest)),
          get_elem?-append (pre ++ lead) (p + length lead) c (tok ++ (d ∷ rest)) at,
          ne-zero c h.0,
          find_delim delim nul fuel (p + length lead) (pre ++ lead) (c ∷ tok) d rest at
              (omega arith) (h, cs) hd,
        )
        refl

  token_at :
      (p : ℕ) (pre lead : List ℕ) (c : ℕ) (tok rest : List ℕ)
      → p ≡ length pre
      → IsChar delim c
      → All (IsChar delim) tok
      → chars (drop (p + length lead) (pre ++ (lead ++ (c ∷ tok ++ (0 ∷ rest))))) ≡ c ∷ tok
  token_at p pre lead c tok rest e h cs =
      rw
        (
          ← append_assoc pre lead (c ∷ tok ++ (0 ∷ rest)),
          drop-append (p + length lead) (pre ++ lead) (c ∷ tok ++ (0 ∷ rest))
              (length-prefix pre lead p e),
        )
        (chars_word (c ∷ tok) rest (h, cs))

  -- `gather` with the offset of the next call, whichever way it is passed.
  gather_done :
      (calls fuel p : ℕ) (pre lead rest : List ℕ) (s saveptr : Option ℕ)
      → ((s ≡ some p) ⊎ ((s ≡ none) × (saveptr ≡ some p)))
      → p ≡ length pre
      → length lead < fuel
      → All (IsDelim delim) lead
      → 0 < calls
      → gather calls fuel (pre ++ (lead ++ (0 ∷ rest))) s delim saveptr ≡ some []
  unfolding gather
  gather_done zero fuel p pre lead rest s saveptr at e f ds n = absurd (omega arith)
  gather_done (suc calls) fuel p pre lead rest s saveptr at e f ds n =
      rw
        (
          start fuel (pre ++ (lead ++ (0 ∷ rest))) p s saveptr delim at,
          strtok-done fuel p pre lead rest e f ds,
        )
        refl

  gather_from :
      (text : Text) (calls fuel p : ℕ) (pre : List ℕ) (s saveptr : Option ℕ)
      → ((s ≡ some p) ⊎ ((s ≡ none) × (saveptr ≡ some p)))
      → p ≡ length pre
      → IsText delim text
      → Fuelled delim fuel text
      → length (words text) < calls
      → gather calls fuel (pre ++ render text) s delim saveptr ≡ some (words text)
  unfolding gather
  gather_from text zero fuel p pre s saveptr at e is f n = absurd (omega arith)
  gather_from (done lead rest) (suc calls) fuel p pre s saveptr at e is f n =
      gather_done (suc calls) fuel p pre lead rest s saveptr at e f is (omega arith)
  gather_from (last lead c tok rest) (suc calls) fuel p pre s saveptr at e (ds, h, cs) f n =
      let q = p + length lead + length (c ∷ tok) in
      let grouped : pre ++ (lead ++ (c ∷ tok ++ (0 ∷ rest)))
          ≡ (pre ++ (lead ++ (c ∷ tok))) ++ (0 ∷ rest) =
        simp append_assoc in
      let later : gather calls fuel (pre ++ (lead ++ (c ∷ tok ++ (0 ∷ rest)))) none delim (some q)
          ≡ some [] =
        ap (λ b. gather calls fuel b none delim (some q)) grouped
        ∙ gather_done calls fuel q (pre ++ (lead ++ (c ∷ tok))) [] rest none (some q)
            (inr (refl, refl))
            (omega (arith, length-append pre (lead ++ (c ∷ tok)), length-append lead (c ∷ tok)))
            (omega arith) tt (omega arith) in
      rw
        (
          start fuel (pre ++ (lead ++ (c ∷ tok ++ (0 ∷ rest)))) p s saveptr delim at,
          strtok-last fuel p pre lead c tok rest e f ds h cs,
          later,
        )
        (ap (λ w. some (w ∷ [])) (token_at p pre lead c tok rest e h cs))
  gather_from (more lead c tok d text) (suc calls) fuel p pre s saveptr at e (ds, h, cs, hd, is)
        (f, fs) n =
      let rest = render text in
      let q = p + length lead + length (c ∷ tok) + 1 in
      let before = pre ++ (lead ++ (c ∷ tok ++ (0 ∷ []))) in
      let grouped : pre ++ (lead ++ (c ∷ tok ++ (0 ∷ rest))) ≡ before ++ rest = simp append_assoc in
      let later : gather calls fuel (pre ++ (lead ++ (c ∷ tok ++ (0 ∷ rest)))) none delim (some q)
          ≡ some (words text) =
        ap (λ b. gather calls fuel b none delim (some q)) grouped
        ∙ gather_from text calls fuel q before none (some q) (inr (refl, refl))
            (omega (
              arith,
              length-append pre (lead ++ (c ∷ tok ++ (0 ∷ []))),
              length-append lead (c ∷ tok ++ (0 ∷ [])),
              length-append (c ∷ tok) (0 ∷ []),
            ))
            is fs (omega arith) in
      rw
        (
          start fuel (pre ++ (lead ++ (c ∷ tok ++ (d ∷ rest)))) p s saveptr delim at,
          strtok-more fuel p pre lead c tok d rest e f ds h cs hd,
          later,
        )
        (ap (λ w. some (w ∷ words text)) (token_at p pre lead c tok rest e h cs))

  -- Calling `strtok_r` on the string and then on null, one time more than there are words, returns
  -- exactly the string's words in order and then null, for delimiters that have a NUL, any string
  -- taken apart into runs of the characters before that NUL and words of other characters, and fuel
  -- above the length of each such run and word.
  pub gather_lem :
      (text : Text) (calls fuel : ℕ)
      → IsText delim text
      → Fuelled delim fuel text
      → length (words text) < calls
      → gather calls fuel (render text) (some 0) delim none ≡ some (words text)
  gather_lem text calls fuel is f n =
      gather_from text calls fuel 0 [] (some 0) none (inl refl) refl is f n

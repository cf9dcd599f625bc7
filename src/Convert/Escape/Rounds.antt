-- ===== src/Convert/Escape/Rounds.antt =====
-- A definition of the escaped form that reads the string from left to right, and one round of the
-- loop of `dns_to_ldap_dn_escape` at a character that is not copied as it is.
use bind_dyndb_ldap_pagure_i.Prelude.{
  ℕ, ◌+◌, ◌<◌, ◌≤◌, ◌≡◌, refl, sym, ◌∙◌, ap, subst, true, false, inl, inr, Option, List, [], ◌∷◌,
  ◌++◌, arith, length, drop, get_or, get_or-drop, length-drop, drop-drop, ◌==◌, if◌then◌else◌,
  Bool-cases,
}
use mathlib.Core.List.{append_assoc}
use bind_dyndb_ldap_pagure_i.Isc.{badescape, Result, ok, err}
use bind_dyndb_ldap_pagure_i.Convert.Escape.{
  is_digit, is_nice, signed_char, decimal, print_hex, ascii_val,
}

abbrev pub prepend : List ℕ → Result (List ℕ) → Result (List ℕ)
prepend xs (ok o) = ok (xs ++ o)
prepend xs (err r) = err r

abbrev pub hexed : Option ℕ → Result (List ℕ) → Result (List ℕ)
hexed v tail = elim (print_hex v) [ ok h ↦ prepend h tail | err r ↦ err r ]

-- The escaped form of a string, character by character; a backslash begins an escape sequence of
-- the DNS with three characters, if the first is a digit, or with one.
unfoldable mutual
  pub escaped : List ℕ → Result (List ℕ)
  escaped [] = ok []
  escaped (c ∷ rest) =
      let tail = escaped rest in
      let sequence = escaped_sequence rest in
      if is_nice c
      then prepend (c ∷ []) tail
      else if c == b'\\'
      then sequence
      else hexed (signed_char c) tail

  pub escaped_sequence : List ℕ → Result (List ℕ)
  escaped_sequence [] = err badescape
  escaped_sequence (d ∷ rest) =
      let tail = escaped rest in
      let number = escaped_second d rest in
      if is_digit d then number else hexed (signed_char d) tail

  pub escaped_second : ℕ → List ℕ → Result (List ℕ)
  escaped_second d [] = err badescape
  escaped_second d (d2 ∷ rest) = escaped_third d d2 rest

  pub escaped_third : ℕ → ℕ → List ℕ → Result (List ℕ)
  escaped_third d d2 [] = err badescape
  escaped_third d d2 (d3 ∷ rest) = hexed (decimal d d2 d3) (escaped rest)

pub prepend_assoc :
    (xs ys : List ℕ) (r : Result (List ℕ)) → prepend xs (prepend ys r) ≡ prepend (xs ++ ys) r
prepend_assoc xs ys (ok o) = ap ok (sym (append_assoc xs ys o))
prepend_assoc xs ys (err r) = refl

pub length-of-drop :
    (s : List ℕ) (idx : ℕ) (r : List ℕ)
    → idx ≤ length s
    → drop idx s ≡ r
    → length r + idx ≡ length s
length-of-drop s idx r h e = subst (λ l. length l + idx ≡ length s) e (length-drop idx s h)

-- What one round of the loop has to do at a character that is not nice.
abbrev pub Rest : List ℕ → ℕ → Result (Option ℕ × ℕ) → Result (List ℕ)
Rest s idx (err r) = err r
Rest s idx (ok (v, n)) = hexed v (escaped (drop (idx + n) s))

abbrev pub Inside : List ℕ → ℕ → Result (Option ℕ × ℕ) → Type 0
Inside s idx (err r) = Unit
Inside s idx (ok (v, n)) = (0 < n) × (idx + n ≤ length s)

module _ (s : List ℕ) (idx : ℕ) (bound : idx ≤ length s) where
  pub drop_after : (n : ℕ) (l r : List ℕ) → drop idx s ≡ l → drop n l ≡ r → drop (idx + n) s ≡ r
  drop_after n l r e f = sym (drop-drop n idx s) ∙ ap (drop n) e ∙ f

  at :
      (n : ℕ) (l : List ℕ) (x : ℕ) (r : List ℕ)
      → drop idx s ≡ l
      → drop n l ≡ x ∷ r
      → get_or s (idx + n) 0 ≡ x
  at n l x r e f = get_or-drop (idx + n) s 0 x r (drop_after n l (x ∷ r) e f)

  pub at_zero : (x : ℕ) (r : List ℕ) → drop idx s ≡ x ∷ r → get_or s idx 0 ≡ x
  at_zero x r e = get_or-drop idx s 0 x r e

  unfoldable pub Round : ℕ → List ℕ → Type 0
  Round c r = (escaped (c ∷ r) ≡ Rest s idx (ascii_val s idx)) × Inside s idx (ascii_val s idx)

  round_slash :
      (c : ℕ) (r : List ℕ)
      → drop idx s ≡ c ∷ r
      → is_nice c ≡ false
      → (c == b'\\') ≡ true
      → Round c r
  unfolding escaped ascii_val Round
  round_slash c [] e n slash =
      let len = length-of-drop s idx (c ∷ []) bound e in
      (ground (arith, n, slash, at_zero c [] e, len), ground (arith, slash, at_zero c [] e, len))
  round_slash c (d ∷ []) e n slash =
      let len = length-of-drop s idx (c ∷ d ∷ []) bound e in
      let c_at = at_zero c (d ∷ []) e in
      let d_at = at 1 (c ∷ d ∷ []) d [] e refl in
      let two = drop_after 2 (c ∷ d ∷ []) [] e refl in
      (ground (arith, n, slash, c_at, d_at, len, two), ground (arith, slash, c_at, d_at, len))
  round_slash c (d ∷ d2 ∷ []) e n slash =
      let len = length-of-drop s idx (c ∷ d ∷ d2 ∷ []) bound e in
      let c_at = at_zero c (d ∷ d2 ∷ []) e in
      let d_at = at 1 (c ∷ d ∷ d2 ∷ []) d (d2 ∷ []) e refl in
      let two = drop_after 2 (c ∷ d ∷ d2 ∷ []) (d2 ∷ []) e refl in
      (ground (arith, n, slash, c_at, d_at, len, two), ground (arith, slash, c_at, d_at, len))
  round_slash c (d ∷ d2 ∷ d3 ∷ r) e n slash =
      let len = length-of-drop s idx (c ∷ d ∷ d2 ∷ d3 ∷ r) bound e in
      let c_at = at_zero c (d ∷ d2 ∷ d3 ∷ r) e in
      let d_at = at 1 (c ∷ d ∷ d2 ∷ d3 ∷ r) d (d2 ∷ d3 ∷ r) e refl in
      let d2_at = at 2 (c ∷ d ∷ d2 ∷ d3 ∷ r) d2 (d3 ∷ r) e refl in
      let d3_at = at 3 (c ∷ d ∷ d2 ∷ d3 ∷ r) d3 r e refl in
      let two = drop_after 2 (c ∷ d ∷ d2 ∷ d3 ∷ r) (d2 ∷ d3 ∷ r) e refl in
      let four = drop_after 4 (c ∷ d ∷ d2 ∷ d3 ∷ r) r e refl in
      (
        ground (arith, n, slash, c_at, d_at, d2_at, d3_at, len, two, four),
        ground (arith, slash, c_at, d_at, len),
      )

  pub round_lem : (c : ℕ) (r : List ℕ) → drop idx s ≡ c ∷ r → is_nice c ≡ false → Round c r
  unfolding escaped ascii_val Round
  round_lem c r e n = elim (Bool-cases (c == b'\\')) [
    | inr raw ↦
        let len = length-of-drop s idx (c ∷ r) bound e in
        let one = drop_after 1 (c ∷ r) r e refl in
        (ground (arith, n, raw, at_zero c r e, one), ground (arith, raw, at_zero c r e, len))
    | inl slash ↦ round_slash c r e n slash
  ]

-- ===== src/Strings/Memory.antt =====
-- Reads and writes in a buffer, and the text that begins at its first byte.
use bind_dyndb_ldap_pagure_i.Prelude.{
  ℕ, zero, suc, ◌+◌, ◌<◌, ◌≤◌, ◌≡◌, ◌≢◌, refl, sym, ◌∙◌, ap, List, [], ◌∷◌, ◌++◌, arith, length,
  length-append, length-drop, All, take, drop, leb, ◌==◌, if◌then◌else◌,
}
use mathlib.Core.List.{append_assoc}
use bind_dyndb_ldap_pagure_i.Isc.{Run, returns, undefined, ◌>>=◌}

-- `memcpy` of the first `n` bytes.
unfoldable pub read : List ℕ → ℕ → Run (List ℕ)
read b n = if leb n (length b) then returns (take n b) else undefined

-- `memcpy` to index `i`.
unfoldable pub write : List ℕ → ℕ → List ℕ → Run (List ℕ)
write b i xs =
    if leb (i + length xs) (length b)
    then returns (take i b ++ (xs ++ drop (i + length xs) b))
    else undefined

unfoldable pub strlen : List ℕ → Run ℕ
strlen [] = undefined
strlen (c ∷ b) = let rest = strlen b >>= λ n. returns (suc n) in if c == 0 then returns 0 else rest

abbrev pub NonZero : ℕ → Type 0
NonZero c = c ≢ 0

pub strlen_lem :
    (text rest : List ℕ) → All NonZero text → strlen (text ++ 0 ∷ rest) ≡ returns (length text)
unfolding strlen
strlen_lem [] rest h = refl
strlen_lem (c ∷ text) rest h = ground (arith, h.0, strlen_lem text rest h.1)

pub All-append : (xs ys : List ℕ) → All NonZero xs → All NonZero ys → All NonZero (xs ++ ys)
All-append [] ys f g = g
All-append (x ∷ xs) ys f g = (f.0, All-append xs ys f.1 g)

pub take-append_self : (xs ys : List ℕ) → take (length xs) (xs ++ ys) ≡ xs
take-append_self [] ys = refl
take-append_self (x ∷ xs) ys = ap (◌∷◌ x) (take-append_self xs ys)

pub take-length : (xs : List ℕ) → take (length xs) xs ≡ xs
take-length [] = refl
take-length (x ∷ xs) = ap (◌∷◌ x) (take-length xs)

pub length-take : (n : ℕ) (xs : List ℕ) → n ≤ length xs → length (take n xs) ≡ n
length-take zero xs h = refl
length-take (suc n) [] h = elim h [ ]
length-take (suc n) (x ∷ xs) h = ap suc (length-take n xs (omega arith))

-- What is cut off behind a text and a byte leaves both.
pub take_past :
    (text : List ℕ) (c n : ℕ) (ys : List ℕ)
    → length text < n
    → (rest : List ℕ) × (take n (text ++ c ∷ ys) ≡ text ++ c ∷ rest)
take_past [] c (suc n) ys h = (take n ys, refl)
take_past [] c zero ys h = elim h [ ]
take_past (x ∷ text) c (suc n) ys h =
    let (rest, e) = take_past text c n ys (omega arith) in (rest, ap (◌∷◌ x) e)
take_past (x ∷ text) c zero ys h = elim h [ ]

-- The buffer after a write inside of it.
abbrev pub written : List ℕ → ℕ → List ℕ → List ℕ
written b i xs = take i b ++ (xs ++ drop (i + length xs) b)

pub write_inside :
    (b : List ℕ) (i : ℕ) (xs : List ℕ)
    → i + length xs ≤ length b
    → write b i xs ≡ returns (written b i xs)
unfolding write
write_inside b i xs h = ground arith

pub length-written :
    (b : List ℕ) (i : ℕ) (xs : List ℕ)
    → i + length xs ≤ length b
    → length (written b i xs) ≡ length b
length-written b i xs h = omega (
  arith,
  length-append (take i b) (xs ++ drop (i + length xs) b),
  length-append xs (drop (i + length xs) b),
  length-take i b (omega (arith, h)),
  length-drop (i + length xs) b h,
)

-- A write behind the text and its NUL leaves both.
pub written_past :
    (text ys : List ℕ) (i : ℕ) (xs : List ℕ)
    → length text < i
    → (rest : List ℕ) × (written (text ++ 0 ∷ ys) i xs ≡ text ++ 0 ∷ rest)
written_past text ys i xs h =
    let behind = xs ++ drop (i + length xs) (text ++ 0 ∷ ys) in
    let (rest, e) = take_past text 0 i ys h in
    (rest ++ behind, ap (λ l. l ++ behind) e ∙ append_assoc text (0 ∷ rest) behind)

-- A write of more text and a NUL at the end of the text.
pub written_end :
    (text ys src : List ℕ)
    → (rest : List ℕ) × (written (text ++ 0 ∷ ys) (length text) (src ++ 0 ∷ [])
        ≡ (text ++ src) ++ 0 ∷ rest)
written_end text ys src =
    let rest = drop (length text + length (src ++ 0 ∷ [])) (text ++ 0 ∷ ys) in
    (
      rest,
      rw (take-append_self text (0 ∷ ys)) (
          ap (λ l. text ++ l) (append_assoc src (0 ∷ []) rest)
          ∙ sym (append_assoc text src (0 ∷ rest))),
    )

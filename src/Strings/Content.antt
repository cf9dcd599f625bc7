-- ===== src/Strings/Content.antt =====
-- The text of a string of src/str.c after each operation.
use bind_dyndb_ldap_pagure_i.Prelude.{
  ℕ, ◌+◌, ◌%◌, ◌^◌, ◌<◌, ◌≤◌, ◌≡◌, refl, ◌∙◌, ap, ◌⊎◌, inl, inr, true, false, Option, none, some,
  List, [], ◌∷◌, ◌++◌, arith, length, length-append, drop, All, ◌==◌, Bool-cases,
}
use mathlib.Core.List.{append-nil, append_assoc}
use bind_dyndb_ldap_pagure_i.Isc.{IscResult, success, nomemory, Run, returns, ◌>>=◌}
use bind_dyndb_ldap_pagure_i.Strings.Memory.{
  read, strlen, NonZero, All-append, written, write_inside, length-written, written_end, strlen_lem,
  take-append_self,
}
use bind_dyndb_ldap_pagure_i.Strings.{
  LdString, size_max, str_alloc, str_len_internal, put_at, then_put, str_init_char, str_cat_char,
  str_cat_char_len,
}
use bind_dyndb_ldap_pagure_i.Strings.Alloc.{InBuffer, IsGet, Holds, str_alloc_lem}

-- The length is that of the text.
str_len_internal_lem :
    (str : LdString) (text : List ℕ) → Holds str text → str_len_internal str ≡ returns (length text)
unfolding str_len_internal
str_len_internal_lem str text (clean, held) = go str.buffer refl held
  where
    go :
        (o : Option (List ℕ))
        → str.buffer ≡ o
        → InBuffer o str.allocated text
        → str_len_internal str ≡ returns (length text)
    go none e (size, empty) = rw (size, empty) refl
    go (some b) e (size, rest, holds) =
        let some_byte : (str.allocated == 0) ≡ false =
          ground (arith, size, ap length holds, length-append text (0 ∷ rest)) in
        rw (some_byte, e) (ap strlen holds ∙ strlen_lem text rest clean)

-- What each way to add text comes to: it fails and changes nothing, or the text follows.
abbrev pub Adds : Run (IscResult × LdString) → LdString → List ℕ → Type 0
Adds run str text =
    (run ≡ returns (nomemory, str))
    ⊎ ((str' : LdString) × (run ≡ returns (success, str')) × Holds str' text)

put_end :
    (b text src : List ℕ)
    → InBuffer (some b) (length b) text
    → length text + length src < length b
    → (str' : LdString) × (put_at
          (record { buffer = some b; allocated = length b })
          (length text)
          (src ++ 0 ∷ [])
        ≡ returns (success, str'))
      × InBuffer str'.buffer str'.allocated (text ++ src)
put_end b text src (_, rest, holds) room =
    let b' = written b (length text) (src ++ 0 ∷ []) in
    let inside : length text + length (src ++ 0 ∷ []) ≤ length b =
      omega (arith, room, length-append src (0 ∷ [])) in
    let wrote = write_inside b (length text) (src ++ 0 ∷ []) inside in
    let (rest', ends) = written_end text rest src in
    (
      record { buffer = some b'; allocated = length b },
      rw wrote refl,
      (
        length-written b (length text) (src ++ 0 ∷ []) inside,
        rest',
        ap (λ l. written l (length text) (src ++ 0 ∷ [])) holds ∙ ends,
      ),
    )

pub put_start :
    (b src : List ℕ)
    → length src < length b
    → (str' : LdString) × (put_at
          (record { buffer = some b; allocated = length b })
          0
          (src ++ 0 ∷ [])
        ≡ returns (success, str'))
      × InBuffer str'.buffer str'.allocated src
put_start b src room =
    let inside : 0 + length (src ++ 0 ∷ []) ≤ length b =
      omega (arith, room, length-append src (0 ∷ [])) in
    let wrote = write_inside b 0 (src ++ 0 ∷ []) inside in
    let rest = drop (0 + length (src ++ 0 ∷ [])) b in
    (
      record { buffer = some (written b 0 (src ++ 0 ∷ [])); allocated = length b },
      rw wrote refl,
      (length-written b 0 (src ++ 0 ∷ []) inside, rest, append_assoc src (0 ∷ []) rest),
    )

empty_src : (src : List ℕ) → (length src == 0) ≡ true → src ≡ []
empty_src [] h = refl
empty_src (x ∷ src) h = ground (arith, h)

module _ (get : ℕ → Option (List ℕ)) (good : IsGet get) (str : LdString) (text src : List ℕ)
    (held : Holds str text) (clean : All NonZero src) where
  alloc_then_put :
      length text + length src + 1 < 2 ^ 63
      → Adds
          (str_alloc get str (length text + length src) >>= λ a.
            then_put a (length text) (src ++ 0 ∷ []))
          str
          (text ++ src)
  alloc_then_put bound =
      elim (str_alloc_lem get good str text held.1 (length text + length src) bound) [
        | inl e ↦ inl (rw e refl)
        | inr (b, e, room, inside) ↦
            let (str', put, there) = put_end b text src inside room in
            inr (str', rw e put, (All-append text src held.0 clean, there))
      ]

  nothing_added : src ≡ [] → Holds str (text ++ src)
  nothing_added e = rw (e, append-nil text) held

  -- On a string that holds a text, with a text to append so that the sum of the lengths stays below
  -- 2^63, `str_cat_char` returns without touching memory outside of its buffers: memory runs out
  -- and the string is as before, or the string holds both texts, one after the other.
  pub str_cat_char_lem :
      length text + length src + 1 < 2 ^ 63
      → Adds (str_cat_char get str (some src)) str (text ++ src)
  unfolding str_cat_char
  str_cat_char_lem bound =
      let sum : (length text + length src) % size_max ≡ length text + length src =
        omega (arith, bound) in
      elim (Bool-cases (length src == 0)) [
        | inl e ↦
            inr (
              str,
              rw (str_len_internal_lem str text held, e) refl,
              nothing_added (empty_src src e),
            )
        | inr e ↦ rw (str_len_internal_lem str text held, e, sum) (alloc_then_put bound)
      ]

  read_front : (behind : List ℕ) → read (src ++ behind) (length src) ≡ returns src
  unfolding read
  read_front behind =
      let inside = length-append src behind in
      let front = take-append_self src behind in ground (arith, inside, front)

  -- Likewise `str_cat_char_len`, which appends the first `len` bytes at the pointer.
  pub str_cat_char_len_lem :
      (behind : List ℕ)
      → length text + length src + 1 < 2 ^ 63
      → Adds (str_cat_char_len get str (some (src ++ behind)) (length src)) str (text ++ src)
  unfolding str_cat_char_len
  str_cat_char_len_lem behind bound =
      let sum : (length text + length src) % size_max ≡ length text + length src =
        omega (arith, bound) in
      elim (Bool-cases (length src == 0)) [
        | inl e ↦ inr (str, rw e refl, nothing_added (empty_src src e))
        | inr e ↦
            rw (e, str_len_internal_lem str text held, sum, read_front behind)
              (alloc_then_put bound)
      ]

  -- `str_init_char` puts the text in the place of the one that the string held, or memory runs out
  -- and the string is as before.
  pub str_init_char_lem : length src + 1 < 2 ^ 63 → Adds (str_init_char get str (some src)) str src
  unfolding str_init_char
  str_init_char_lem bound = elim (str_alloc_lem get good str text held.1 (length src) bound) [
    | inl e ↦ inl (rw e refl)
    | inr (b, e, room, inside) ↦
        let (str', put, there) = put_start b src room in inr (str', rw e put, (clean, there))
  ]

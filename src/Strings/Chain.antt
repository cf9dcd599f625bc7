-- ===== src/Strings/Chain.antt =====
-- Texts that are added one after the other, each `str_cat_char` within CHECK.
use bind_dyndb_ldap_pagure_i.Prelude.{
  ℕ, ◌+◌, ◌^◌, ◌<◌, ◌≡◌, refl, false, ◌∙◌, ap, subst, ◌⊎◌, inl, inr, Option, none, some, List, [],
  ◌∷◌, ◌++◌, arith, length, length-append, All, ◌==◌,
}
use mathlib.Core.List.{append-nil, append_assoc}
use bind_dyndb_ldap_pagure_i.Isc.{IscResult, success, nomemory, Run, returns, ◌>>=◌}
use bind_dyndb_ldap_pagure_i.Strings.{LdString, str_cat_char, str_clear}
use bind_dyndb_ldap_pagure_i.Strings.Memory.{NonZero}
use bind_dyndb_ldap_pagure_i.Strings.Alloc.{InBuffer, IsGet, Holds}
use bind_dyndb_ldap_pagure_i.Strings.Content.{str_cat_char_lem, put_start}

-- What follows a call within CHECK.
abbrev pub checked :
    (LdString → Run (IscResult × LdString)) → IscResult × LdString → Run (IscResult × LdString)
checked next (success, str) = next str
checked next (r, str) = returns (r, str)

unfoldable pub cat_all :
    (ℕ → Option (List ℕ)) → LdString → List (List ℕ) → Run (IscResult × LdString)
cat_all get dest [] = returns (success, dest)
cat_all get dest (src ∷ rest) =
    str_cat_char get dest (some src) >>= checked (λ d. cat_all get d rest)

unfoldable pub concat : List (List ℕ) → List ℕ
concat [] = []
concat (t ∷ ts) = t ++ concat ts

-- What a chain comes to: memory runs out, with a text still in the string, or the string holds the
-- whole text.
abbrev pub Comes : Run (IscResult × LdString) → List ℕ → Type 0
Comes run text =
    ((str' : LdString) × (run ≡ returns (nomemory, str'))
      × (some_text : List ℕ) × Holds str' some_text)
    ⊎ ((str' : LdString) × (run ≡ returns (success, str')) × Holds str' text)

pub cat_all_lem :
    (get : ℕ → Option (List ℕ))
    → IsGet get
    → (ts : List (List ℕ)) (str : LdString) (text : List ℕ) → Holds str text
    → All (All NonZero) ts
    → length text + length (concat ts) + 1 < 2 ^ 63
    → Comes (cat_all get str ts) (text ++ concat ts)
unfolding cat_all concat
cat_all_lem get good [] str text held clean bound = inr (str, refl, rw (append-nil text) held)
cat_all_lem get good (t ∷ ts) str text held clean bound =
    let sizes = length-append t (concat ts) in
    elim (str_cat_char_lem get good str text t held (clean.0) (omega (arith, bound, sizes))) [
      | inl e ↦ inl (str, rw e refl, text, held)
      | inr (str', e, held') ↦
          let later =
            cat_all_lem get good ts str' (text ++ t) held' (clean.1)
              (omega (arith, bound, sizes, length-append text t)) in
          rw e (subst (Comes (cat_all get str' ts)) (append_assoc text t (concat ts)) later)
    ]

-- `str_clear` leaves the string with the empty text.
pub str_clear_lem :
    (str : LdString) (text : List ℕ)
    → Holds str text
    → (str' : LdString) × (str_clear str ≡ returns (success, str')) × Holds str' []
unfolding str_clear
str_clear_lem str text (clean, held) = go str.buffer refl held
  where
    go :
        (o : Option (List ℕ))
        → str.buffer ≡ o
        → InBuffer o str.allocated text
        → (str' : LdString) × (str_clear str ≡ returns (success, str')) × Holds str' []
    go none e (size, empty) = (str, rw size refl, (tt, rw (e, size) (refl, refl)))
    go (some b) e (size, rest, holds) =
        let some_byte : 0 < length b =
          omega (arith, ap length holds, length-append text (0 ∷ rest)) in
        let (str', put, there) = put_start b [] some_byte in
        let same : str ≡ record { buffer = some b; allocated = length b } =
          ground (arith, e, size) in
        let not_empty : (length b == 0) ≡ false = ground (arith, some_byte) in
        let whole : LdString = record { buffer = some b; allocated = length b } in
        let done : str_clear whole ≡ returns (success, str') = rw not_empty put in
        (str', ap str_clear same ∙ done, (tt, there))

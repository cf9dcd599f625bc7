-- ===== src/Convert/Rdatatype/Rounds.antt =====
-- From a record type to an attribute name and back.
use bind_dyndb_ldap_pagure_i.Prelude.{
  ℕ, zero, suc, ◌-◌, ◌<◌, ◌≡◌, ◌≢◌, refl, sym, ◌∙◌, ap, Bool, true, false, inl, inr, Bool-cases,
  List, [], ◌∷◌, ◌++◌, map, arith, length, length-append, length-drop, take, drop, leb,
}
use bind_dyndb_ldap_pagure_i.Isc.{Result, ok, Result-cases}
use bind_dyndb_ldap_pagure_i.Text.{to_lower, bytes, bytes_eq, bytes_eq_refl, bytes_eq_sound}
use bind_dyndb_ldap_pagure_i.Strings.Memory.{take-append_self}
use bind_dyndb_ldap_pagure_i.Convert.Rdatatype.{
  suffix, unknown_prefix, same_text, ldap_attribute_to_rdatatype, IscString, then_append,
  rdatatype_to_ldap_attribute,
}

drop-append_self : (xs ys : List ℕ) → drop (length xs) (xs ++ ys) ≡ ys
drop-append_self [] ys = refl
drop-append_self (x ∷ xs) ys = drop-append_self xs ys

same_text_refl : (a : List ℕ) → same_text a a ≡ true
unfolding same_text
same_text_refl a = bytes_eq_refl (map to_lower a)

-- The last byte of a text.
unfoldable pub last : List ℕ → ℕ
last [] = 0
last (x ∷ []) = x
last (x ∷ y ∷ rest) = last (y ∷ rest)

last-append : (xs : List ℕ) (y : ℕ) (ys : List ℕ) → last (xs ++ y ∷ ys) ≡ last (y ∷ ys)
unfolding last
last-append [] y ys = refl
last-append (x ∷ []) y ys = refl
last-append (x ∷ x' ∷ xs) y ys = last-append (x' ∷ xs) y ys

last-map : (x : ℕ) (xs : List ℕ) → last (map to_lower (x ∷ xs)) ≡ to_lower (last (x ∷ xs))
unfolding last
last-map x [] = refl
last-map x (y ∷ xs) = last-map y xs

last-drop : (k : ℕ) (xs : List ℕ) → k < length xs → last (drop k xs) ≡ last xs
unfolding last
last-drop zero xs h = refl
last-drop (suc k) [] h = elim h [ ]
last-drop (suc k) (x ∷ []) h = absurd (omega (arith, h))
last-drop (suc k) (x ∷ y ∷ xs) h = last-drop k (y ∷ xs) (omega (arith, h))

last-suffix : last (map to_lower suffix) ≡ b'd'
unfolding last to_lower bytes
last-suffix = refl

-- A text that ends with a digit does not end with the suffix.
not_suffix : (a : List ℕ) → 0 < length a → to_lower (last a) ≢ b'd' → same_text a suffix ≡ false
unfolding same_text
not_suffix [] n h = elim n [ ]
not_suffix (x ∷ a) n h = elim (Bool-cases (bytes_eq (map to_lower (x ∷ a)) (map to_lower suffix))) [
  | inr e ↦ e
  | inl e ↦
      let same = bytes_eq_sound (map to_lower (x ∷ a)) (map to_lower suffix) e in
      absurd (h (sym (last-map x a) ∙ ap last same ∙ last-suffix))
]

module _ (rdatatype_fromtext : List ℕ → Result ℕ) where
  back_known :
      (name : List ℕ)
      → 0 < length name
      → ldap_attribute_to_rdatatype rdatatype_fromtext (name ++ suffix) ≡ rdatatype_fromtext name
  unfolding ldap_attribute_to_rdatatype
  back_known name h =
      let total = length-append name suffix in
      let base : length (name ++ suffix) - length suffix ≡ length name = omega (arith, total) in
      let long : leb (length (name ++ suffix)) (length suffix) ≡ false = ground (arith, total, h) in
      rw
        (
          long,
          base,
          drop-append_self name suffix,
          same_text_refl suffix,
          take-append_self name suffix,
        )
        refl

  back_unknown :
      (x : ℕ) (digits : List ℕ)
      → to_lower (last (x ∷ digits)) ≢ b'd'
      → ldap_attribute_to_rdatatype rdatatype_fromtext (unknown_prefix ++ x ∷ digits)
        ≡ rdatatype_fromtext (x ∷ digits)
  unfolding ldap_attribute_to_rdatatype bytes
  back_unknown x digits h =
      let a = unknown_prefix ++ x ∷ digits in
      let total = length-append unknown_prefix (x ∷ digits) in
      let end = drop (length a - 6) a in
      let end_last : last end ≡ last (x ∷ digits) =
        last-drop (length a - 6) a (omega (arith, total)) ∙ last-append unknown_prefix x digits in
      let end_length : 0 < length end =
        omega (arith, total, length-drop (length a - 6) a (omega (arith, total))) in
      let other : same_text end suffix ≡ false =
        not_suffix end end_length (λ e. h (sym (ap to_lower end_last) ∙ e)) in
      let front : same_text (take 14 a) unknown_prefix ≡ true = same_text_refl unknown_prefix in
      let long : leb (length a) (length suffix) ≡ false = ground (arith, total) in
      rw (long, other, front) refl

module _ (lib : IscString) (rdatatype_fromtext : List ℕ → Result ℕ) (format decimal : ℕ → List ℕ)
    (rdtype size : ℕ) (known : rdatatype_fromtext (format rdtype) ≡ ok rdtype)
    (generic : rdatatype_fromtext (bytes "TYPE" ++ decimal rdtype) ≡ ok rdtype)
    (named : 0 < length (format rdtype))
    (ends : to_lower (last (bytes "TYPE" ++ decimal rdtype)) ≢ b'd') where
  whole : (s t u : List ℕ) → then_append lib size (lib.copy size s) t ≡ ok u → u ≡ s ++ t
  whole s t u h = elim (Result-cases (lib.copy size s)) [
    | inr (r, e) ↦ absurd (ground (arith, h, e))
    | inl (c, e) ↦
        lib.append_whole size c t u (ground (arith, h, e))
        ∙ ap (λ l. l ++ t) (lib.copy_whole size s c e)
  ]

  -- When the DNS library reads both texts of a record type, its mnemonic and `TYPE` with a number, as
  -- that type, when the mnemonic is not empty and the last character of the other text is not the
  -- letter d, then an attribute name that `rdatatype_to_ldap_attribute` has made of the type, in
  -- either form, reads as this type again.
  pub rdatatype-round :
      (unknown : Bool) (attribute : List ℕ)
      → rdatatype_to_ldap_attribute lib format decimal rdtype size unknown ≡ ok attribute
      → ldap_attribute_to_rdatatype rdatatype_fromtext attribute ≡ ok rdtype
  unfolding rdatatype_to_ldap_attribute bytes
  rdatatype-round true attribute h =
      let made : attribute ≡ unknown_prefix ++ (bytes "TYPE" ++ decimal rdtype) =
        whole unknown_prefix (bytes "TYPE" ++ decimal rdtype) attribute h in
      rw made (back_unknown rdatatype_fromtext b'T' (bytes "YPE" ++ decimal rdtype) ends ∙ generic)
  rdatatype-round false attribute h =
      let made : attribute ≡ format rdtype ++ suffix = whole (format rdtype) suffix attribute h in
      rw made (back_known rdatatype_fromtext (format rdtype) named ∙ known)

-- ===== src/LdapEntry/Records.antt =====
-- The attributes that a loop with `ldap_entry_firstrdtype` and `ldap_entry_nextrdtype` comes to.
use bind_dyndb_ldap_pagure_i.Prelude.{
  ℕ, zero, suc, ◌<◌, ◌≤◌, ◌≡◌, refl, sym, ◌∙◌, ap, inl, inr, String, Option, none, some, List, [],
  ◌∷◌, arith, length, drop, drop-suc, get_elem?,
}
use bind_dyndb_ldap_pagure_i.Isc.{IscResult, nomore, Result, ok, err, returns, ◌>>=◌, Result-cases}
use bind_dyndb_ldap_pagure_i.LdapEntry.{LdapAttribute}
use bind_dyndb_ldap_pagure_i.LdapEntry.Iterate.{
  next_position, ldap_entry_nextattr, nextrdtype_loop, ldap_entry_nextrdtype,
  ldap_entry_firstrdtype, for_each_rdtype, records,
}

-- The element that a rest of the list begins with.
get_elem-drop :
    (i : ℕ) (l : List LdapAttribute) (x : LdapAttribute) (r : List LdapAttribute)
    → drop i l ≡ x ∷ r
    → get_elem? l i ≡ some x
get_elem-drop zero [] x r h = cc
get_elem-drop zero (y ∷ l) x r h = cc
get_elem-drop (suc i) [] x r h = cc
get_elem-drop (suc i) (y ∷ l) x r h = get_elem-drop i l x r h

get_elem-drop_nil : (i : ℕ) (l : List LdapAttribute) → drop i l ≡ [] → get_elem? l i ≡ none
get_elem-drop_nil zero [] h = refl
get_elem-drop_nil zero (y ∷ l) h = cc
get_elem-drop_nil (suc i) [] h = refl
get_elem-drop_nil (suc i) (y ∷ l) h = get_elem-drop_nil i l h

length-drop_le : (i : ℕ) (l : List LdapAttribute) → length (drop i l) ≤ length l
length-drop_le zero l = omega arith
length-drop_le (suc i) [] = omega arith
length-drop_le (suc i) (y ∷ l) = let shorter = length-drop_le i l in omega (arith, shorter)

module _ (to_rdatatype : String → Result ℕ) (attrs : List LdapAttribute) where
  records_found :
      (a : LdapAttribute) (rest : List LdapAttribute) (t : ℕ)
      → to_rdatatype a.name ≡ ok t
      → records to_rdatatype (a ∷ rest) ≡ (a, t) ∷ records to_rdatatype rest
  unfolding records
  records_found a rest t e = ground (arith, e)

  records_other :
      (a : LdapAttribute) (rest : List LdapAttribute) (r : IscResult)
      → to_rdatatype a.name ≡ err r
      → records to_rdatatype (a ∷ rest) ≡ records to_rdatatype rest
  unfolding records
  records_other a rest r e = ground (arith, e)

  loop_end :
      (lastattr : Option ℕ) (inner : ℕ)
      → get_elem? attrs (next_position lastattr) ≡ none
      → nextrdtype_loop to_rdatatype (suc inner) attrs lastattr ≡ returns (err nomore, lastattr)
  unfolding nextrdtype_loop ldap_entry_nextattr
  loop_end lastattr inner e = ground (arith, e)

  loop_found :
      (lastattr : Option ℕ) (inner : ℕ) (a : LdapAttribute) (t : ℕ)
      → get_elem? attrs (next_position lastattr) ≡ some a
      → to_rdatatype a.name ≡ ok t
      → nextrdtype_loop to_rdatatype (suc inner) attrs lastattr
        ≡ returns (ok (a, t), some (next_position lastattr))
  unfolding nextrdtype_loop ldap_entry_nextattr
  loop_found lastattr inner a t e f = ground (arith, e, f)

  loop_other :
      (lastattr : Option ℕ) (inner : ℕ) (a : LdapAttribute) (r : IscResult)
      → get_elem? attrs (next_position lastattr) ≡ some a
      → to_rdatatype a.name ≡ err r
      → nextrdtype_loop to_rdatatype (suc inner) attrs lastattr
        ≡ nextrdtype_loop to_rdatatype inner attrs (some (next_position lastattr))
  unfolding nextrdtype_loop ldap_entry_nextattr
  loop_other lastattr inner a r e f = ground (arith, e, f)

  -- Both loops from a position on, given what is left there.
  from_position :
      (rest : List LdapAttribute) (lastattr : Option ℕ) (outer inner : ℕ)
      → drop (next_position lastattr) attrs ≡ rest
      → length rest < outer
      → length rest < inner
      → for_each_rdtype to_rdatatype outer attrs (nextrdtype_loop to_rdatatype inner attrs lastattr)
        ≡ returns (records to_rdatatype rest)
  unfolding for_each_rdtype ldap_entry_nextrdtype records
  from_position rest lastattr zero inner e f g = elim f [ ]
  from_position rest lastattr (suc outer) zero e f g = elim g [ ]
  from_position [] lastattr (suc outer) (suc inner) e f g =
      rw (loop_end lastattr inner (get_elem-drop_nil (next_position lastattr) attrs e)) refl
  from_position (a ∷ rest) lastattr (suc outer) (suc inner) e f g =
      let i = next_position lastattr in
      let here = get_elem-drop i attrs a rest e in
      let behind = drop-suc i attrs a rest e in
      let left = length-drop_le (suc i) attrs in
      elim (Result-cases (to_rdatatype a.name)) [
        | inl (t, ok_type) ↦
            let more =
              from_position rest (some i) outer (suc (length attrs)) behind (omega (arith, f))
                (omega (arith, left, ap length behind)) in
            ap (for_each_rdtype to_rdatatype (suc outer) attrs)
              (loop_found lastattr inner a t here ok_type)
            ∙ ap (λ m. m >>= λ rest'. returns ((a, t) ∷ rest')) more
            ∙ ap returns (sym (records_found a rest t ok_type))
        | inr (r, no_type) ↦
            ap (for_each_rdtype to_rdatatype (suc outer) attrs)
              (loop_other lastattr inner a r here no_type)
            ∙ from_position rest (some i) (suc outer) inner behind (omega (arith, f))
                (omega (arith, g))
            ∙ ap returns (sym (records_other a rest r no_type))
      ]

  -- The loop over `ldap_entry_firstrdtype` and `ldap_entry_nextrdtype` ends and sees exactly the
  -- attributes whose name stands for a record type, each once and in the order of the entry.
  pub for_each_rdtype_lem :
      for_each_rdtype to_rdatatype
        (suc (length attrs))
        attrs
        (ldap_entry_firstrdtype to_rdatatype attrs)
      ≡ returns (records to_rdatatype attrs)
  unfolding ldap_entry_firstrdtype ldap_entry_nextrdtype
  for_each_rdtype_lem =
      from_position attrs none (suc (length attrs)) (suc (length attrs)) refl (omega arith)
        (omega arith)

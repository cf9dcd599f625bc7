-- ===== src/LdapEntry/Iterate.antt =====
-- src/ldap_entry.c: iteration over the attributes of an entry that are records, and over the values of
-- an attribute. `lastattr` and `lastval` are positions in the lists, and `none` is NULL.
use bind_dyndb_ldap_pagure_i.Prelude.{
  ℕ, zero, suc, String, Option, none, some, List, [], ◌∷◌, length, get_elem?,
}
use bind_dyndb_ldap_pagure_i.Isc.{nomore, Result, ok, err, Run, returns, blocks, ◌>>=◌}
use bind_dyndb_ldap_pagure_i.LdapEntry.{LdapAttribute}

abbrev pub next_position : Option ℕ → ℕ
next_position none = 0
next_position (some i) = suc i

-- The attribute, if there is one more, and the new `lastattr`.
abbrev pub step_to : Option ℕ → ℕ → Option LdapAttribute → Option LdapAttribute × Option ℕ
step_to lastattr i none = (none, lastattr)
step_to lastattr i (some a) = (some a, some i)

unfoldable pub ldap_entry_nextattr : List LdapAttribute → Option ℕ → Option LdapAttribute × Option ℕ
ldap_entry_nextattr attrs lastattr =
    step_to lastattr (next_position lastattr) (get_elem? attrs (next_position lastattr))

module _ (to_rdatatype : String → Result ℕ) where
  -- The loop of `ldap_entry_nextrdtype`: the attribute with its record type, or ISC_R_NOMORE, and
  -- the new `lastattr`.
  unfoldable pub nextrdtype_loop :
      ℕ → List LdapAttribute → Option ℕ → Run (Result (LdapAttribute × ℕ) × Option ℕ)
  nextrdtype_loop zero attrs lastattr = blocks
  nextrdtype_loop (suc fuel) attrs lastattr =
      let (attr, last) = ldap_entry_nextattr attrs lastattr in
      elim attr [
        | none ↦ returns (err nomore, last)
        | some a ↦ elim (to_rdatatype a.name) [
          | ok t ↦ returns (ok (a, t), last)
          | err r ↦ nextrdtype_loop fuel attrs last
        ]
      ]

  unfoldable pub ldap_entry_nextrdtype :
      List LdapAttribute → Option ℕ → Run (Result (LdapAttribute × ℕ) × Option ℕ)
  ldap_entry_nextrdtype attrs lastattr = nextrdtype_loop (suc (length attrs)) attrs lastattr

  unfoldable pub ldap_entry_firstrdtype :
      List LdapAttribute → Run (Result (LdapAttribute × ℕ) × Option ℕ)
  ldap_entry_firstrdtype attrs = ldap_entry_nextrdtype attrs none

  -- The loop of a caller, from `ldap_entry_firstrdtype` to the first result that is not
  -- ISC_R_SUCCESS: what it sees.
  unfoldable pub for_each_rdtype :
      ℕ
      → List LdapAttribute
      → Run (Result (LdapAttribute × ℕ) × Option ℕ)
      → Run (List (LdapAttribute × ℕ))
  for_each_rdtype zero attrs found = blocks
  for_each_rdtype (suc fuel) attrs found = do
    (result, last) ← found
    elim result [
      | err r ↦ returns []
      | ok x ↦ do
        rest ← for_each_rdtype fuel attrs (ldap_entry_nextrdtype attrs last)
        returns (x ∷ rest)
    ]

  -- The attributes that are records, with their types, in the order of the entry.
  unfoldable pub records : List LdapAttribute → List (LdapAttribute × ℕ)
  records [] = []
  records (a ∷ rest) = elim (to_rdatatype a.name) [
    | ok t ↦ (a, t) ∷ records rest
    | err r ↦ records rest
  ]

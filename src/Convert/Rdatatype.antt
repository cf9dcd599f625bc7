-- ===== src/Convert/Rdatatype.antt =====
-- src/ldap_convert.c: attribute names and record types. A text is the list of its bytes.
pub mod Rounds
mod Tests
use bind_dyndb_ldap_pagure_i.Prelude.{
  ℕ, zero, suc, ◌+◌, ◌-◌, ◌<◌, ◌≤◌, ◌≡◌, Bool, true, false, Option, none, some, List, [], ◌∷◌, ◌++◌,
  map, length, take, drop, ltb, leb, if◌then◌else◌,
}
use bind_dyndb_ldap_pagure_i.Isc.{
  IscResult, success, unexpected, unexpectedend, nospace, Result, ok, err,
}
use bind_dyndb_ldap_pagure_i.Text.{to_lower, bytes, bytes_eq}

abbrev pub suffix : List ℕ
suffix = bytes "Record"

abbrev pub unknown_prefix : List ℕ
unknown_prefix = bytes "UnknownRecord;"

-- `strcasecmp(a, b) == 0`
unfoldable pub same_text : List ℕ → List ℕ → Bool
same_text a b = bytes_eq (map to_lower a) (map to_lower b)

-- `rdatatype_fromtext` is `dns_rdatatype_fromtext`. That the first bytes are those of the prefix is
-- what `strncasecmp` with the length of the prefix finds.
unfoldable pub ldap_attribute_to_rdatatype : (List ℕ → Result ℕ) → List ℕ → Result ℕ
unfolding same_text
ldap_attribute_to_rdatatype rdatatype_fromtext ldap_attribute =
    let len = length ldap_attribute in
    let base_len = len - length suffix in
    if leb len (length suffix)
    then err unexpectedend
    else if same_text (drop base_len ldap_attribute) suffix
    then rdatatype_fromtext (take base_len ldap_attribute)
    else if same_text (take (length unknown_prefix) ldap_attribute) unknown_prefix
    then rdatatype_fromtext (drop (length unknown_prefix) ldap_attribute)
    else err unexpected

-- `isc_string_copy` and `isc_string_append` of the ISC library, to a buffer of that size: an error, or
-- the whole text.
pub record IscString : Type 0 where
  pub copy : ℕ → List ℕ → Result (List ℕ)
  pub append : ℕ → List ℕ → List ℕ → Result (List ℕ)
  pub copy_whole : (size : ℕ) (s t : List ℕ) → copy size s ≡ ok t → t ≡ s
  pub append_whole : (size : ℕ) (s t u : List ℕ) → append size s t ≡ ok u → u ≡ s ++ t

abbrev pub then_append : IscString → ℕ → Result (List ℕ) → List ℕ → Result (List ℕ)
then_append lib size (ok target) source = lib.append size target source
then_append lib size (err r) source = err r

-- `format` is `dns_rdatatype_format`, and `decimal` the digits that `%u` prints. `TYPE65535` fits
-- into `rdtype_str`.
unfoldable pub rdatatype_to_ldap_attribute :
    IscString → (ℕ → List ℕ) → (ℕ → List ℕ) → ℕ → ℕ → Bool → Result (List ℕ)
rdatatype_to_ldap_attribute lib format decimal rdtype size true =
    then_append lib size (lib.copy size unknown_prefix) (bytes "TYPE" ++ decimal rdtype)
rdatatype_to_ldap_attribute lib format decimal rdtype size false =
    then_append lib size (lib.copy size (format rdtype)) suffix

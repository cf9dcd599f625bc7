-- ===== src/Convert/Rdatatype/Tests.antt =====
-- Names of attributes and record types at concrete arguments.
use bind_dyndb_ldap_pagure_i.Prelude.{
  ℕ, ◌<◌, ◌≡◌, ◌≢◌, refl, true, List, ◌++◌, length, arith, if◌then◌else◌,
}
use bind_dyndb_ldap_pagure_i.Isc.{unexpected, notfound, Result, ok, err}
use bind_dyndb_ldap_pagure_i.Text.{bytes, bytes_eq, to_lower}
use bind_dyndb_ldap_pagure_i.Convert.Rdatatype.{
  IscString, ldap_attribute_to_rdatatype, rdatatype_to_ldap_attribute, same_text,
}
use bind_dyndb_ldap_pagure_i.Convert.Rdatatype.Rounds.{last, rdatatype-round}

-- Type 1, which is called A.
abbrev read_type : List ℕ → Result ℕ
read_type t =
    if bytes_eq t (bytes "A")
    then ok 1
    else if bytes_eq t (bytes "TYPE1")
    then ok 1
    else err notfound

abbrev print_type : ℕ → List ℕ
print_type n = bytes "A"

abbrev plain_strings : IscString
plain_strings = record {
  copy = λ size s. ok s;
  append = λ size s t. ok (s ++ t);
  copy_whole = λ size s t h. cc;
  append_whole = λ size s t u h. cc;
}

abbrev digits : ℕ → List ℕ
digits n = bytes "1"

known : read_type (print_type 1) ≡ ok 1
unfolding bytes bytes_eq
known = refl

generic : read_type (bytes "TYPE" ++ digits 1) ≡ ok 1
unfolding bytes bytes_eq
generic = refl

has_mnemonic : 0 < length (print_type 1)
unfolding bytes
has_mnemonic = omega arith

ends : to_lower (last (bytes "TYPE" ++ digits 1)) ≢ b'd'
unfolding bytes last to_lower
ends = omega arith

printed :
    rdatatype_to_ldap_attribute plain_strings print_type digits 1 30 true
    ≡ ok (bytes "UnknownRecord;TYPE1")
unfolding rdatatype_to_ldap_attribute bytes
printed = refl

no_type : ldap_attribute_to_rdatatype read_type (bytes "idnsName") ≡ err unexpected
unfolding ldap_attribute_to_rdatatype same_text bytes bytes_eq to_lower
no_type = refl

rdatatype-round_example : ldap_attribute_to_rdatatype read_type (bytes "UnknownRecord;TYPE1") ≡ ok 1
rdatatype-round_example =
    rdatatype-round plain_strings read_type print_type digits 1 30 known generic has_mnemonic ends
      true (bytes "UnknownRecord;TYPE1") printed

-- ===== src/Convert/Escape/Tests.antt =====
-- Runs of `dns_to_ldap_dn_escape`, and the theorems about it at concrete arguments.
use bind_dyndb_ldap_pagure_i.Prelude.{
  some, ℕ, ◌+◌, ◌*◌, ◌≤◌, ◌≡◌, refl, Bool, true, List, [], ◌∷◌, length,
}
use bind_dyndb_ldap_pagure_i.Isc.{nospace, ok, err, returns}
use bind_dyndb_ldap_pagure_i.Convert.Escape.{
  escape_loop, is_digit, is_alnum, is_nice, signed_char, decimal, hex_digit, print_hex, ascii_val,
  dns_to_ldap_dn_escape,
}
use bind_dyndb_ldap_pagure_i.Convert.Escape.Rounds.{escaped}
use bind_dyndb_ldap_pagure_i.Convert.Escape.Loop.{dns_to_ldap_dn_escape-escaped}
use bind_dyndb_ldap_pagure_i.Convert.Escape.Output.{dns_to_ldap_dn_escape_fits}
use bind_dyndb_ldap_pagure_i.Convert.Escape.Decode.{
  dns_sequence, dns_number, dns_last, digits_value, dns_bytes, ldap_bytes,
  dns_to_ldap_dn_escape-denotes,
}

abbrev memory : ℕ → Bool
memory n = true

-- `a,\255b` and `a\2c\ffb`
abbrev text : List ℕ
text = b'a' ∷ b',' ∷ b'\\' ∷ b'2' ∷ b'5' ∷ b'5' ∷ b'b' ∷ []

abbrev result : List ℕ
result = b'a' ∷ b'\\' ∷ b'2' ∷ b'c' ∷ b'\\' ∷ b'f' ∷ b'f' ∷ b'b' ∷ []

escape_text : dns_to_ldap_dn_escape memory text ≡ returns (ok result)
unfolding dns_to_ldap_dn_escape escape_loop is_nice is_alnum is_digit ascii_val decimal signed_char
    print_hex hex_digit
escape_text = refl

-- `\999` is not the number of a byte.
escape_999 : dns_to_ldap_dn_escape memory (b'\\' ∷ b'9' ∷ b'9' ∷ b'9' ∷ []) ≡ returns (err nospace)
unfolding dns_to_ldap_dn_escape escape_loop is_nice is_alnum is_digit ascii_val decimal signed_char
    print_hex hex_digit
escape_999 = refl

dns_to_ldap_dn_escape-escaped_example : dns_to_ldap_dn_escape memory text ≡ returns (escaped text)
dns_to_ldap_dn_escape-escaped_example = dns_to_ldap_dn_escape-escaped memory text refl

dns_to_ldap_dn_escape_fits_example : length result + 1 ≤ 3 * length text + 1
dns_to_ldap_dn_escape_fits_example = dns_to_ldap_dn_escape_fits memory text result refl escape_text

abbrev bytes : List ℕ
bytes = b'a' ∷ b',' ∷ 255 ∷ b'b' ∷ []

dns_bytes-text : dns_bytes text ≡ some bytes
unfolding dns_bytes dns_sequence dns_number dns_last digits_value is_digit
dns_bytes-text = refl

dns_to_ldap_dn_escape-denotes_example : ldap_bytes result ≡ some bytes
dns_to_ldap_dn_escape-denotes_example =
    dns_to_ldap_dn_escape-denotes memory text result bytes refl dns_bytes-text escape_text

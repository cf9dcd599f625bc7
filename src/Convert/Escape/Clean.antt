-- ===== src/Convert/Escape/Clean.antt =====
-- The bytes of the text that `dns_to_ldap_dn_escape` returns.
use bind_dyndb_ldap_pagure_i.Prelude.{
  ℕ, ◌+◌, ◌*◌, ◌/◌, ◌%◌, ◌≡◌, refl, sym, subst, inl, inr, ◌∙◌, Bool, true, false, Option, none,
  some, List, [], ◌∷◌, arith, All, ltb, ◌==◌, if◌then◌else◌, Bool-cases, length,
}
use bind_dyndb_ldap_pagure_i.Isc.{Result, ok, err, returns}
use bind_dyndb_ldap_pagure_i.Strings.Memory.{NonZero, All-append}
use bind_dyndb_ldap_pagure_i.Convert.Escape.{
  is_digit, is_alnum, is_nice, signed_char, decimal, hex_digit, print_hex, dns_to_ldap_dn_escape,
}
use bind_dyndb_ldap_pagure_i.Convert.Escape.Rounds.{
  prepend, hexed, escaped, escaped_sequence, escaped_second, escaped_third,
}
use bind_dyndb_ldap_pagure_i.Convert.Escape.Loop.{dns_to_ldap_dn_escape-escaped}

abbrev Clean : Result (List ℕ) → Type 0
Clean (ok o) = All NonZero o
Clean (err r) = Unit

prepend-Clean :
    (xs : List ℕ) (r : Result (List ℕ)) → All NonZero xs → Clean r → Clean (prepend xs r)
prepend-Clean xs (ok o) f g = All-append xs o f g
prepend-Clean xs (err r) f g = tt

print_hex-Clean : (v : Option ℕ) → Clean (print_hex v)
unfolding print_hex hex_digit
print_hex-Clean none = tt
print_hex-Clean (some v) = elim (Bool-cases (ltb v 256)) [
  | inl e ↦ rw (e, Clean) (omega arith, (digit (v / 16), (digit (v % 16), tt)))
  | inr e ↦ rw (e, Clean) tt
]
  where
    digit : (n : ℕ) → NonZero (hex_digit n)
    digit n = ground arith

hexed-Clean : (v : Option ℕ) (r : Result (List ℕ)) → Clean r → Clean (hexed v r)
hexed-Clean v r c = go (print_hex v) refl (print_hex-Clean v)
  where
    go : (p : Result (List ℕ)) → print_hex v ≡ p → Clean p → Clean (hexed v r)
    go (ok h) e f = rw (e, Clean) (prepend-Clean h r f c)
    go (err x) e f = rw (e, Clean) tt

Clean-if : (t : Bool) (r s : Result (List ℕ)) → Clean r → Clean s → Clean (if t then r else s)
Clean-if true r s f g = f
Clean-if false r s f g = g

is_nice-NonZero : (c : ℕ) → is_nice c ≡ true → NonZero c
unfolding is_nice is_alnum is_digit
is_nice-NonZero c n = ground (arith, n)

mutual
  unfolding escaped

  escaped-Clean : (s : List ℕ) → Clean (escaped s)
  escaped-Clean [] = tt
  escaped-Clean (c ∷ rest) =
      let plain = escaped-Clean rest in
      let sequence = escaped_sequence-Clean rest in
      elim (Bool-cases (is_nice c)) [
        | inl e ↦
            rw (e, Clean) (prepend-Clean (c ∷ []) (escaped rest) (is_nice-NonZero c e, tt) plain)
        | inr e ↦
            rw (e, Clean)
              (Clean-if (c == b'\\') (escaped_sequence rest) (hexed (signed_char c) (escaped rest))
                sequence (hexed-Clean (signed_char c) (escaped rest) plain))
      ]

  escaped_sequence-Clean : (s : List ℕ) → Clean (escaped_sequence s)
  escaped_sequence-Clean [] = tt
  escaped_sequence-Clean (d ∷ rest) =
      let plain = hexed-Clean (signed_char d) (escaped rest) (escaped-Clean rest) in
      let number = escaped_second-Clean d rest in
      Clean-if (is_digit d) (escaped_second d rest) (hexed (signed_char d) (escaped rest)) number
        plain

  escaped_second-Clean : (d : ℕ) (s : List ℕ) → Clean (escaped_second d s)
  escaped_second-Clean d [] = tt
  escaped_second-Clean d (d2 ∷ rest) = escaped_third-Clean d d2 rest

  escaped_third-Clean : (d d2 : ℕ) (s : List ℕ) → Clean (escaped_third d d2 s)
  escaped_third-Clean d d2 [] = tt
  escaped_third-Clean d d2 (d3 ∷ rest) =
      hexed-Clean (decimal d d2 d3) (escaped rest) (escaped-Clean rest)

-- A result has no NUL in it.
pub dns_to_ldap_dn_escape-NonZero :
    (alloc : ℕ → Bool) (s out : List ℕ)
    → alloc (3 * length s + 1) ≡ true
    → dns_to_ldap_dn_escape alloc s ≡ returns (ok out)
    → All NonZero out
dns_to_ldap_dn_escape-NonZero alloc s out h e =
    let same : returns (escaped s) ≡ returns (ok out) =
      sym (dns_to_ldap_dn_escape-escaped alloc s h) ∙ e in
    let value : escaped s ≡ ok out = cc same in subst Clean value (escaped-Clean s)

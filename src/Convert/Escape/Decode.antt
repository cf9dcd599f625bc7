-- ===== src/Convert/Escape/Decode.antt =====
-- What the text that `dns_to_ldap_dn_escape` returns denotes in an LDAP DN, and what its argument
-- denotes as DNS text.
use bind_dyndb_ldap_pagure_i.Prelude.{
  ℕ, zero, suc, ◌+◌, ◌-◌, ◌*◌, ◌/◌, ◌%◌, ◌<◌, ◌≡◌, refl, sym, ◌∙◌, ap, subst, Bool, true, false,
  ◌⊎◌, inl, inr, ◌&&◌, Option, none, some, List, [], ◌∷◌, arith, length, drop, ltb, leb, ◌==◌,
  if◌then◌else◌,
}
use bind_dyndb_ldap_pagure_i.Isc.{Result, ok, err, returns}
use bind_dyndb_ldap_pagure_i.Convert.Escape.{
  is_digit, is_alnum, is_nice, signed_char, decimal, hex_digit, print_hex, dns_to_ldap_dn_escape,
}
use bind_dyndb_ldap_pagure_i.Convert.Escape.Rounds.{
  prepend, hexed, escaped, escaped_sequence, escaped_second, escaped_third,
}
use bind_dyndb_ldap_pagure_i.Convert.Escape.Loop.{dns_to_ldap_dn_escape-escaped}
use bind_dyndb_ldap_pagure_i.Convert.Escape.Output.{length-drop_le}

abbrev put : Option ℕ → Option (List ℕ) → Option (List ℕ)
put (some v) (some b) = some (v ∷ b)
put (some v) none = none
put none b = none

-- The number that three digits denote.
unfoldable pub digits_value : ℕ → ℕ → ℕ → Option ℕ
unfolding is_digit
digits_value d d2 d3 =
    if is_digit d && is_digit d2 && is_digit d3
    then some (100 * (d - b'0') + 10 * (d2 - b'0') + (d3 - b'0'))
    else none

-- The bytes that DNS text denotes: `\123` is the byte of that decimal number, `\$` is the character
-- after the backslash, every other character is itself.
unfoldable mutual
  pub dns_bytes : List ℕ → Option (List ℕ)
  dns_bytes [] = some []
  dns_bytes (c ∷ rest) =
      let sequence = dns_sequence rest in
      let plain = put (some c) (dns_bytes rest) in if c == b'\\' then sequence else plain

  pub dns_sequence : List ℕ → Option (List ℕ)
  dns_sequence [] = none
  dns_sequence (d ∷ rest) =
      let number = dns_number d rest in
      let plain = put (some d) (dns_bytes rest) in if is_digit d then number else plain

  pub dns_number : ℕ → List ℕ → Option (List ℕ)
  dns_number d [] = none
  dns_number d (d2 ∷ rest) = dns_last d d2 rest

  pub dns_last : ℕ → ℕ → List ℕ → Option (List ℕ)
  dns_last d d2 [] = none
  dns_last d d2 (d3 ∷ rest) = put (digits_value d d2 d3) (dns_bytes rest)

unfoldable pub hex_value : ℕ → Option ℕ
unfolding is_digit
hex_value c =
    if is_digit c
    then some (c - b'0')
    else (if leb b'a' c && leb c b'f' then some (c - b'a' + 10) else none)

abbrev pair_value : Option ℕ → Option ℕ → Option ℕ
pair_value (some x) (some y) = some (16 * x + y)
pair_value (some x) none = none
pair_value none y = none

-- The bytes that an attribute value in a DN denotes: `\xy` is the byte of that hexadecimal number.
unfoldable mutual
  pub ldap_bytes : List ℕ → Option (List ℕ)
  ldap_bytes [] = some []
  ldap_bytes (c ∷ rest) =
      let pair = ldap_pair rest in
      let plain = put (some c) (ldap_bytes rest) in if c == b'\\' then pair else plain

  pub ldap_pair : List ℕ → Option (List ℕ)
  ldap_pair [] = none
  ldap_pair (x ∷ rest) = ldap_second x rest

  pub ldap_second : ℕ → List ℕ → Option (List ℕ)
  ldap_second x [] = none
  ldap_second x (y ∷ rest) = put (pair_value (hex_value x) (hex_value y)) (ldap_bytes rest)

hex_value-hex_digit : (n : ℕ) → n < 16 → hex_value (hex_digit n) ≡ some n
unfolding hex_value hex_digit is_digit
hex_value-hex_digit n h = ground arith

-- The output denotes the bytes, if the text denotes any.
abbrev Denotes : Option (List ℕ) → Result (List ℕ) → Type 0
Denotes b (ok o) = (b ≡ none) ⊎ (ldap_bytes o ≡ b)
Denotes b (err r) = Unit

Denotes-nice :
    (c : ℕ) (b : Option (List ℕ)) (r : Result (List ℕ))
    → is_nice c ≡ true
    → Denotes b r
    → Denotes (put (some c) b) (prepend (c ∷ []) r)
unfolding ldap_bytes is_nice is_alnum is_digit
Denotes-nice c b (ok o) n (inl e) = inl (rw e refl)
Denotes-nice c b (ok o) n (inr d) = inr (ground (arith, n, d))
Denotes-nice c b (err r) n d = tt

pair_value-hex :
    (v : ℕ)
    → v < 256
    → pair_value (hex_value (hex_digit (v / 16))) (hex_value (hex_digit (v % 16))) ≡ some v
pair_value-hex v h =
    let high = hex_value-hex_digit (v / 16) (omega (arith, h)) in
    let low = hex_value-hex_digit (v % 16) (omega arith) in
    let whole : 16 * (v / 16) + v % 16 ≡ v = omega arith in
    rw (high, low, pair_value) (ap some whole)

Denotes-print_hex :
    (v : ℕ) (b : Option (List ℕ)) (r : Result (List ℕ))
    → v < 256
    → Denotes b r
    → Denotes (put (some v) b) (prepend (b'\\' ∷ hex_digit (v / 16) ∷ hex_digit (v % 16) ∷ []) r)
unfolding ldap_bytes ldap_pair ldap_second
Denotes-print_hex v b (ok o) h (inl e) = inl (rw e refl)
Denotes-print_hex v b (ok o) h (inr d) = inr (rw (pair_value-hex v h, d) refl)
Denotes-print_hex v b (err r) h d = tt

Denotes-hexed :
    (v : Option ℕ) (b : Option (List ℕ)) (r : Result (List ℕ))
    → Denotes b r
    → Denotes (put v b) (hexed v r)
unfolding print_hex
Denotes-hexed none b r d = tt
Denotes-hexed (some v) b r d = go (ltb v 256) refl
  where
    go : (t : Bool) → ltb v 256 ≡ t → Denotes (put (some v) b) (hexed (some v) r)
    go true e =
        let small : v < 256 = ground (arith, e) in rw (e, Denotes) (Denotes-print_hex v b r small d)
    go false e = rw (e, Denotes) tt

Denotes-raw :
    (c : ℕ) (b : Option (List ℕ)) (r : Result (List ℕ))
    → Denotes b r
    → Denotes (put (some c) b) (hexed (signed_char c) r)
unfolding signed_char print_hex
Denotes-raw c b r d = go (ltb c 128) refl
  where
    go : (t : Bool) → ltb c 128 ≡ t → Denotes (put (some c) b) (hexed (signed_char c) r)
    go true e = rw (e, Denotes) (Denotes-hexed (some c) b r d)
    go false e = rw (e, Denotes) tt

Denotes-if :
    (t : Bool) (b1 b2 : Option (List ℕ)) (r1 r2 : Result (List ℕ))
    → Denotes b1 r1
    → Denotes b2 r2
    → Denotes (if t then b1 else b2) (if t then r1 else r2)
Denotes-if true b1 b2 r1 r2 d1 d2 = d1
Denotes-if false b1 b2 r1 r2 d1 d2 = d2

digits_value-cases :
    (d d2 d3 : ℕ) → (digits_value d d2 d3 ≡ none) ⊎ (decimal d d2 d3 ≡ digits_value d d2 d3)
unfolding digits_value is_digit decimal
digits_value-cases d d2 d3 = ground arith

Denotes-none : (b : Option (List ℕ)) (r : Result (List ℕ)) → b ≡ none → Denotes b r
Denotes-none b (ok o) e = inl e
Denotes-none b (err x) e = tt

number-Denotes :
    (d : ℕ) (rest : List ℕ)
    → ((k : ℕ) → Denotes (dns_bytes (drop k rest)) (escaped (drop k rest)))
    → Denotes (dns_number d rest) (escaped_second d rest)
unfolding dns_bytes dns_number dns_last escaped escaped_second escaped_third
number-Denotes d [] f = tt
number-Denotes d (d2 ∷ []) f = tt
number-Denotes d (d2 ∷ d3 ∷ rest) f = elim (digits_value-cases d d2 d3) [
  | inl e ↦
      let nothing : put (digits_value d d2 d3) (dns_bytes rest) ≡ none = rw e refl in
      Denotes-none (put (digits_value d d2 d3) (dns_bytes rest))
        (hexed (decimal d d2 d3) (escaped rest)) nothing
  | inr e ↦
      subst (λ v. Denotes (put v (dns_bytes rest)) (hexed (decimal d d2 d3) (escaped rest))) e
        (Denotes-hexed (decimal d d2 d3) (dns_bytes rest) (escaped rest) (f 2))
]

sequence-Denotes :
    (rest : List ℕ)
    → ((k : ℕ) → Denotes (dns_bytes (drop k rest)) (escaped (drop k rest)))
    → Denotes (dns_sequence rest) (escaped_sequence rest)
unfolding dns_bytes dns_sequence escaped escaped_sequence
sequence-Denotes [] f = tt
sequence-Denotes (d ∷ rest) f =
    Denotes-if (is_digit d) (dns_number d rest) (put (some d) (dns_bytes rest))
      (escaped_second d rest) (hexed (signed_char d) (escaped rest))
      (number-Denotes d rest (λ k. f (suc k))) (Denotes-raw d (dns_bytes rest) (escaped rest) (f 1))

is_nice-plain : (c : ℕ) → is_nice c ≡ true → (c == b'\\') ≡ false
unfolding is_nice is_alnum is_digit
is_nice-plain c n = ground (arith, n)

dns_bytes-nice :
    (c : ℕ) (rest : List ℕ)
    → is_nice c ≡ true
    → dns_bytes (c ∷ rest) ≡ put (some c) (dns_bytes rest)
unfolding dns_bytes
dns_bytes-nice c rest n = rw (is_nice-plain c n) refl

step-Denotes :
    (c : ℕ) (rest : List ℕ)
    → ((k : ℕ) → Denotes (dns_bytes (drop k rest)) (escaped (drop k rest)))
    → Denotes (dns_bytes (c ∷ rest)) (escaped (c ∷ rest))
unfolding escaped dns_bytes
step-Denotes c rest parts = go (is_nice c) refl
  where
    plain : Option (List ℕ)
    plain = put (some c) (dns_bytes rest)

    go : (t : Bool) → is_nice c ≡ t → Denotes (dns_bytes (c ∷ rest)) (escaped (c ∷ rest))
    go true n =
        let same = dns_bytes-nice c rest n in
        rw n (
          subst (λ b. Denotes b (prepend (c ∷ []) (escaped rest))) (sym same)
            (Denotes-nice c (dns_bytes rest) (escaped rest) n (parts 0)))
    go false n =
        rw (n, Denotes)
          (Denotes-if (c == b'\\') (dns_sequence rest) plain (escaped_sequence rest)
            (hexed (signed_char c) (escaped rest)) (sequence-Denotes rest parts)
            (Denotes-raw c (dns_bytes rest) (escaped rest) (parts 0)))

escaped-Denotes : (fuel : ℕ) (s : List ℕ) → length s < fuel → Denotes (dns_bytes s) (escaped s)
unfolding escaped dns_bytes ldap_bytes
escaped-Denotes zero s b = let none_left : ⊥ = omega (arith, b) in absurd none_left
escaped-Denotes (suc fuel) [] b = inr refl
escaped-Denotes (suc fuel) (c ∷ rest) b =
    step-Denotes c rest
      (λ k. escaped-Denotes fuel (drop k rest) (omega (arith, b, length-drop_le k rest)))

-- When the output buffer can be allocated, the DNS text is properly escaped, and the conversion
-- succeeds, the LDAP text denotes the same bytes as the DNS text.
pub dns_to_ldap_dn_escape-denotes :
    (alloc : ℕ → Bool) (s out bytes : List ℕ)
    → alloc (3 * length s + 1) ≡ true
    → dns_bytes s ≡ some bytes
    → dns_to_ldap_dn_escape alloc s ≡ returns (ok out)
    → ldap_bytes out ≡ some bytes
dns_to_ldap_dn_escape-denotes alloc s out bytes h d e =
    let same : returns (escaped s) ≡ returns (ok out) =
      sym (dns_to_ldap_dn_escape-escaped alloc s h) ∙ e in
    let value : escaped s ≡ ok out = cc same in
    let denoted =
      subst (Denotes (dns_bytes s)) value (escaped-Denotes (suc (length s)) s (omega arith)) in
    elim denoted [ inl n ↦ cc (n, d) | inr q ↦ q ∙ d ]

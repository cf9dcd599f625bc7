-- ===== src/Convert/Escape/Output.antt =====
-- The length of the output of `dns_to_ldap_dn_escape` in src/ldap_convert.c.
use bind_dyndb_ldap_pagure_i.Prelude.{
  ℕ, zero, suc, ◌+◌, ◌*◌, ◌<◌, ◌≤◌, ◌≡◌, refl, sym, ◌∙◌, subst, Bool, true, false, Option, none,
  some, List, [], ◌∷◌, arith, length, length-append, drop, ◌==◌, if◌then◌else◌,
}
use bind_dyndb_ldap_pagure_i.Isc.{Result, ok, err, returns}
use bind_dyndb_ldap_pagure_i.Convert.Escape.{
  is_digit, is_nice, signed_char, decimal, print_hex, dns_to_ldap_dn_escape,
}
use bind_dyndb_ldap_pagure_i.Convert.Escape.Rounds.{
  prepend, hexed, escaped, escaped_sequence, escaped_second, escaped_third,
}
use bind_dyndb_ldap_pagure_i.Convert.Escape.Loop.{dns_to_ldap_dn_escape-escaped}

abbrev Fits : ℕ → Result (List ℕ) → Type 0
Fits n (ok o) = length o ≤ n
Fits n (err r) = Unit

Fits-prepend :
    (n m : ℕ) (xs : List ℕ) (r : Result (List ℕ))
    → Fits n r
    → length xs + n ≤ m
    → Fits m (prepend xs r)
Fits-prepend n m xs (ok o) f h = omega (arith, f, h, length-append xs o)
Fits-prepend n m xs (err r) f h = tt

Fits-weaken : (n m : ℕ) (r : Result (List ℕ)) → Fits n r → n ≤ m → Fits m r
Fits-weaken n m (ok o) f h = omega (arith, f, h)
Fits-weaken n m (err r) f h = tt

pub length-drop_le : (k : ℕ) (s : List ℕ) → length (drop k s) ≤ length s
length-drop_le zero s = omega arith
length-drop_le (suc k) [] = omega arith
length-drop_le (suc k) (c ∷ s) = omega (arith, length-drop_le k s)

length-print_hex : (v : Option ℕ) (h : List ℕ) → print_hex v ≡ ok h → length h ≡ 3
unfolding print_hex
length-print_hex none h e = ground (arith, e)
length-print_hex (some v) h e = ground (arith, e)

Fits-hexed :
    (n m : ℕ) (v : Option ℕ) (r : Result (List ℕ)) → Fits n r → 3 + n ≤ m → Fits m (hexed v r)
Fits-hexed n m v r f h = go (print_hex v) refl
  where
    go : (p : Result (List ℕ)) → print_hex v ≡ p → Fits m (hexed v r)
    go (err x) e = rw (e, Fits) tt
    go (ok o) e =
        let fits = Fits-prepend n m o r f (omega (arith, h, length-print_hex v o e)) in
        rw (e, Fits) fits

Fits-if :
    (m : ℕ) (test : Bool) (a b : Result (List ℕ))
    → Fits m a
    → Fits m b
    → Fits m (if test then a else b)
Fits-if m true a b f g = f
Fits-if m false a b f g = g

module _ (value : Option ℕ) (rest : List ℕ) (f : Fits (3 * length rest) (escaped rest)) where
  one : (n : ℕ) → 3 * suc (length rest) ≤ n → Fits n (hexed value (escaped rest))
  one n h = Fits-hexed (3 * length rest) n value (escaped rest) f (omega (arith, h))

escaped_number-Fits :
    (d : ℕ) (rest : List ℕ)
    → ((k : ℕ) → Fits (3 * length (drop k rest)) (escaped (drop k rest)))
    → Fits (3 * length rest) (escaped_second d rest)
unfolding escaped escaped_second escaped_third
escaped_number-Fits d [] f = tt
escaped_number-Fits d (d2 ∷ []) f = tt
escaped_number-Fits d (d2 ∷ d3 ∷ rest) f =
    one (decimal d d2 d3) rest (f 2) (3 * suc (suc (length rest))) (omega arith)

escaped_sequence-Fits :
    (rest : List ℕ)
    → ((k : ℕ) → Fits (3 * length (drop k rest)) (escaped (drop k rest)))
    → Fits (3 * length rest) (escaped_sequence rest)
unfolding escaped escaped_sequence
escaped_sequence-Fits [] f = tt
escaped_sequence-Fits (d ∷ rest) f =
    let number = escaped_second d rest in
    let single = hexed (signed_char d) (escaped rest) in
    Fits-if (3 * suc (length rest)) (is_digit d) number single
      (Fits-weaken (3 * length rest) (3 * suc (length rest)) number
        (escaped_number-Fits d rest (λ k. f (suc k))) (omega arith))
      (one (signed_char d) rest (f 1) (3 * suc (length rest)) (omega arith))

escaped-Fits : (fuel : ℕ) (s : List ℕ) → length s < fuel → Fits (3 * length s) (escaped s)
unfolding escaped
escaped-Fits zero s b = let none_left : ⊥ = omega (arith, b) in absurd none_left
escaped-Fits (suc fuel) [] b = omega arith
escaped-Fits (suc fuel) (c ∷ rest) b =
    let parts : (k : ℕ) → Fits (3 * length (drop k rest)) (escaped (drop k rest)) =
      λ k. escaped-Fits fuel (drop k rest) (omega (arith, b, length-drop_le k rest)) in
    let all = parts 0 in
    let room = 3 * suc (length rest) in
    let raw = hexed (signed_char c) (escaped rest) in
    Fits-if room (is_nice c) (prepend (c ∷ []) (escaped rest))
      (if c == b'\\' then escaped_sequence rest else raw)
      (Fits-prepend (3 * length rest) room (c ∷ []) (escaped rest) all (omega arith))
      (Fits-if room (c == b'\\') (escaped_sequence rest) raw
        (Fits-weaken (3 * length rest) room (escaped_sequence rest)
          (escaped_sequence-Fits rest parts) (omega arith))
        (one (signed_char c) rest all room (omega arith)))

-- When the output buffer of `3 * length s + 1` bytes can be allocated and the conversion succeeds,
-- the output fits in it with its terminating NUL.
pub dns_to_ldap_dn_escape_fits :
    (alloc : ℕ → Bool) (s out : List ℕ)
    → alloc (3 * length s + 1) ≡ true
    → dns_to_ldap_dn_escape alloc s ≡ returns (ok out)
    → length out + 1 ≤ 3 * length s + 1
dns_to_ldap_dn_escape_fits alloc s out h e =
    let same : returns (escaped s) ≡ returns (ok out) =
      sym (dns_to_ldap_dn_escape-escaped alloc s h) ∙ e in
    let value : escaped s ≡ ok out = cc same in
    let fits : length out ≤ 3 * length s =
      subst (Fits (3 * length s)) value (escaped-Fits (suc (length s)) s (omega arith)) in
    omega (arith, fits)

-- ===== src/Convert/Escape/Loop.antt =====
-- `dns_to_ldap_dn_escape` against a definition that reads the string from left to right.
use bind_dyndb_ldap_pagure_i.Prelude.{
  ℕ, zero, suc, ◌+◌, ◌-◌, ◌*◌, ◌<◌, ◌≤◌, ◌≡◌, refl, ◌∙◌, ap, subst, Bool, true, false, inl, inr,
  Option, none, some, List, [], ◌∷◌, ◌++◌, arith, length, drop, get_or, take-snoc, drop-drop,
  Bool-cases,
}
use mathlib.Core.List.{append-nil, append_assoc}
use bind_dyndb_ldap_pagure_i.Isc.{Result, ok, err, returns}
use bind_dyndb_ldap_pagure_i.Convert.Escape.{
  is_nice, print_hex, ascii_val, pending, open_part, escape_loop, dns_to_ldap_dn_escape,
}
use bind_dyndb_ldap_pagure_i.Convert.Escape.Rounds.{
  prepend, hexed, escaped, prepend_assoc, length-of-drop, Rest, Inside, drop_after, at_zero, Round,
  round_lem,
}

abbrev pub Opened : Option ℕ → ℕ → Type 0
Opened none idx = Unit
Opened (some f) idx = f ≤ idx

pending_nice :
    (s : List ℕ) (first : Option ℕ) (idx c : ℕ) (r : List ℕ)
    → Opened first idx
    → drop idx s ≡ c ∷ r
    → pending s (some (open_part first idx)) (idx + 1) ≡ pending s first idx ++ c ∷ []
pending_nice s none idx c r o e = let n : idx + 1 - idx ≡ 1 = omega arith in rw (n, e) refl
pending_nice s (some f) idx c r o e =
    let n : idx + 1 - f ≡ suc (idx - f) = omega arith in
    let m : f + (idx - f) ≡ idx = omega arith in
    rw n (take-snoc (idx - f) (drop f s) c r (drop-drop (idx - f) f s ∙ ap (λ k. drop k s) m ∙ e))

Opened-nice :
    (first : Option ℕ) (idx : ℕ) → Opened first idx → Opened (some (open_part first idx)) (idx + 1)
Opened-nice none idx o = omega arith
Opened-nice (some f) idx o = omega arith

prepend-hexed :
    (xs h : List ℕ) (v : Option ℕ) (tail : Result (List ℕ))
    → print_hex v ≡ ok h
    → prepend xs (hexed v tail) ≡ prepend (xs ++ h) tail
prepend-hexed xs h v tail e = rw (e, prepend) (prepend_assoc xs h tail)

-- What the loop returns on so much fuel.
abbrev pub Correct : ℕ → List ℕ → ℕ → Option ℕ → List ℕ → Type 0
Correct fuel s idx first out =
    idx ≤ length s
    → length s - idx < fuel
    → Opened first idx
    → escape_loop fuel s idx first out
      ≡ returns (prepend (out ++ pending s first idx) (escaped (drop idx s)))

module _ (fuel : ℕ) (s : List ℕ)
    (ih : (idx : ℕ) (first : Option ℕ) (out : List ℕ) → Correct fuel s idx first out) (idx : ℕ)
    (first : Option ℕ) (out : List ℕ) (b : idx ≤ length s) (f : length s - idx < suc fuel)
    (o : Opened first idx) (c : ℕ) (r : List ℕ) (e : drop idx s ≡ c ∷ r) where
  inside : idx < length s
  inside = omega (arith, length-of-drop s idx (c ∷ r) b e)

  head : get_or s idx 0 ≡ c
  head = at_zero s idx b c r e

  rest : drop (idx + 1) s ≡ r
  rest = drop_after s idx b 1 (c ∷ r) r e refl

  step_nice :
      is_nice c ≡ true
      → escape_loop (suc fuel) s idx first out
        ≡ returns (prepend (out ++ pending s first idx) (escaped (c ∷ r)))
  unfolding escape_loop escaped
  step_nice n =
      let here =
        ih (idx + 1) (some (open_part first idx)) out (omega (arith, inside))
          (omega (arith, inside)) (Opened-nice first idx o) in
      ground (
        arith,
        inside,
        head,
        rest,
        n,
        here,
        pending_nice s first idx c r o e,
        append_assoc out (pending s first idx) (c ∷ []),
        prepend_assoc (out ++ pending s first idx) (c ∷ []) (escaped r),
      )

  step_other :
      is_nice c ≡ false
      → escape_loop (suc fuel) s idx first out
        ≡ returns (prepend (out ++ pending s first idx) (escaped (c ∷ r)))
  unfolding escape_loop Round
  step_other n = go (ascii_val s idx) refl
    where
      before : List ℕ
      before = out ++ pending s first idx

      around : Round s idx b c r
      around = round_lem s idx b c r e n

      printed :
          (v : Option ℕ) (k : ℕ) (p : Result (List ℕ))
          → ascii_val s idx ≡ ok (v, k)
          → print_hex v ≡ p
          → escape_loop (suc fuel) s idx first out ≡ returns (prepend before (escaped (c ∷ r)))
      printed v k (err x) ea ep = ground (arith, inside, head, n, ea, ep, around)
      printed v k (ok h) ea ep =
          let rest_at = drop (idx + k) s in
          let within : (0 < k) × (idx + k ≤ length s) = subst (Inside s idx) ea (around.1) in
          let value : escaped (c ∷ r) ≡ hexed v (escaped rest_at) =
            subst (λ a. escaped (c ∷ r) ≡ Rest s idx a) ea (around.0) in
          let there = ih (idx + k) none (before ++ h) (within.1) (omega (arith, within, f)) tt in
          let tail = prepend-hexed before h v (escaped rest_at) ep in
          let none_open = append-nil (before ++ h) in
          ground (arith, inside, head, n, ea, ep, value, there, tail, none_open)

      go :
          (a : Result (Option ℕ × ℕ))
          → ascii_val s idx ≡ a
          → escape_loop (suc fuel) s idx first out ≡ returns (prepend before (escaped (c ∷ r)))
      go (err x) ea = ground (arith, inside, head, n, ea, around)
      go (ok (v, k)) ea = printed v k (print_hex v) ea refl

escape_loop-escaped :
    (fuel : ℕ) (s : List ℕ) (idx : ℕ) (first : Option ℕ) (out : List ℕ)
    → Correct fuel s idx first out
unfolding escape_loop escaped
escape_loop-escaped zero s idx first out b f o = let none_left : ⊥ = omega arith in absurd none_left
escape_loop-escaped (suc fuel) s idx first out b f o =
    go (escape_loop-escaped fuel s) (drop idx s) refl
  where
    go :
        ((i : ℕ) (fi : Option ℕ) (o' : List ℕ) → Correct fuel s i fi o')
        → (l : List ℕ) → drop idx s ≡ l
        → escape_loop (suc fuel) s idx first out
          ≡ returns (prepend (out ++ pending s first idx) (escaped l))
    go ih [] e =
        let len = length-of-drop s idx [] b e in
        let all = append-nil (out ++ pending s first idx) in ground (arith, len, all)
    go ih (c ∷ r) e = elim (Bool-cases (is_nice c)) [
      | inl n ↦ step_nice fuel s ih idx first out b f o c r e n
      | inr n ↦ step_other fuel s ih idx first out b f o c r e n
    ]

-- When the output buffer can be allocated, `dns_to_ldap_dn_escape` ends and gives for every string
-- what the definition `escaped` gives, an improper escape sequence or number included.
pub dns_to_ldap_dn_escape-escaped :
    (alloc : ℕ → Bool) (s : List ℕ)
    → alloc (3 * length s + 1) ≡ true
    → dns_to_ldap_dn_escape alloc s ≡ returns (escaped s)
unfolding dns_to_ldap_dn_escape
dns_to_ldap_dn_escape-escaped alloc s h =
    let loop = escape_loop-escaped (suc (length s)) s 0 none [] (omega arith) (omega arith) tt in
    ground (arith, h, loop)

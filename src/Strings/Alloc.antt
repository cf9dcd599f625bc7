-- ===== src/Strings/Alloc.antt =====
-- `str_alloc` of src/str.c: enough room, and the text that was there.
use bind_dyndb_ldap_pagure_i.Prelude.{
  ℕ, ◌+◌, ◌%◌, ◌^◌, ◌<◌, ◌≤◌, ◌≡◌, refl, sym, ◌∙◌, ap, ◌⊎◌, inl, inr, Option, none, some, List, [],
  ◌∷◌, ◌++◌, arith, length, length-append, take, drop, All, ltb, Bool-cases, Option-cases,
}
use mathlib.Core.List.{append_assoc}
use bind_dyndb_ldap_pagure_i.Isc.{IscResult, success, nomemory, Run, returns, ◌>>=◌}
use bind_dyndb_ldap_pagure_i.Strings.Memory.{
  read, write, NonZero, take-length, written, write_inside, length-written, written_past,
}
use bind_dyndb_ldap_pagure_i.Strings.{LdString, size_max, move_to, moved, alloc_more, str_alloc}
use bind_dyndb_ldap_pagure_i.Strings.Growth.{grow_ends}

-- A buffer that holds the text, with its NUL.
abbrev pub InBuffer : Option (List ℕ) → ℕ → List ℕ → Type 0
InBuffer none allocated text = (allocated ≡ 0) × (text ≡ [])
InBuffer (some b) allocated text = (length b ≡ allocated) × (rest : List ℕ) × (b ≡ text ++ 0 ∷ rest)

-- `isc_mem_get` returns NULL or a buffer of the size that was asked for.
abbrev pub IsGet : (ℕ → Option (List ℕ)) → Type 0
IsGet get = (n : ℕ) (b : List ℕ) → get n ≡ some b → length b ≡ n

read_all : (b : List ℕ) (n : ℕ) → length b ≡ n → read b n ≡ returns b
unfolding read
read_all b n h = let e : take n b ≡ b = rw (← h) (take-length b) in ground (arith, e)

move_to_lem :
    (str : LdString) (text new : List ℕ) (len : ℕ)
    → InBuffer str.buffer str.allocated text
    → str.allocated ≤ len
    → len < length new
    → (b : List ℕ) × (move_to str new len ≡ returns b) × InBuffer (some b) (length new) text
unfolding move_to
move_to_lem str text new len held small room = go str.buffer refl held
  where
    go :
        (o : Option (List ℕ))
        → str.buffer ≡ o
        → InBuffer o str.allocated text
        → (b : List ℕ) × (move_to str new len ≡ returns b) × InBuffer (some b) (length new) text
    go none e i =
        let first = write_inside new 0 (0 ∷ []) (omega (arith, room)) in
        (
          written new 0 (0 ∷ []),
          rw e first,
          (length-written new 0 (0 ∷ []) (omega (arith, room)), drop 1 new, rw (i.1) refl),
        )
    go (some old) e (size, rest, old_text) =
        let all : read old str.allocated ≡ returns old = read_all old str.allocated size in
        let first = write_inside new 0 old (omega (arith, room, small, size)) in
        let filled = written new 0 old in
        let same_size = length-written new 0 old (omega (arith, room, small, size)) in
        let behind = drop (0 + length old) new in
        let filled_text : filled ≡ text ++ 0 ∷ (rest ++ behind) =
          ap (λ l. l ++ behind) old_text ∙ append_assoc text (0 ∷ rest) behind in
        let second = write_inside filled len (0 ∷ []) (omega (arith, room, same_size)) in
        let inside : length text < len =
          omega (arith, size, small, ap length old_text, length-append text (0 ∷ rest)) in
        let (rest', past) = written_past text (rest ++ behind) len (0 ∷ []) inside in
        (
          written filled len (0 ∷ []),
          rw (e, all, ◌>>=◌) (ap (λ m. m >>= λ f. write f len (0 ∷ [])) first ∙ second),
          (
            length-written filled len (0 ∷ []) (omega (arith, room, same_size)) ∙ same_size,
            rest',
            ap (λ f. written f len (0 ∷ [])) filled_text ∙ past,
          ),
        )

-- What a string is for its callers: it holds a text without NUL.
abbrev pub Holds : LdString → List ℕ → Type 0
Holds str text = All NonZero text × InBuffer str.buffer str.allocated text

-- What a larger buffer is for a string that holds the text: it fails and changes nothing, or there
-- is room for the length behind the text.
abbrev pub Room : Run (IscResult × LdString) → LdString → List ℕ → ℕ → Type 0
Room run str text len =
    (run ≡ returns (nomemory, str))
    ⊎ ((b : List ℕ) × (run ≡ returns (success, record { buffer = some b; allocated = length b }))
        × (len < length b)
        × InBuffer (some b) (length b) text)

module _ (get : ℕ → Option (List ℕ)) (good : IsGet get) (str : LdString) (text : List ℕ)
    (held : InBuffer str.buffer str.allocated text) where
  alloc_more_lem : (k : ℕ) → str.allocated ≤ k → k < 2 ^ 63 → Room (alloc_more get str k) str text k
  unfolding alloc_more
  alloc_more_lem k small bound =
      let (n, run, above, _) = grow_ends str.allocated k bound in
      elim (Option-cases (get n)) [
        | inl none_left ↦ inl (rw (run, none_left) refl)
        | inr (new, got) ↦
            let size : length new ≡ n = good n new got in
            let (b, done, there) =
              move_to_lem str text new k held small (omega (arith, above, size)) in
            inr (
              b,
              rw (run, got, done) (ap (λ m. returns (moved m b)) (sym (there.0 ∙ size))),
              omega (arith, above, size, there.0),
              (refl, there.1, there.2),
            )
      ]

  enough :
      (o : Option (List ℕ)) (len : ℕ)
      → str.buffer ≡ o
      → InBuffer o str.allocated text
      → len < str.allocated
      → Room (returns (success, str)) str text len
  enough none len e i t = absurd (omega (arith, i.0, t))
  enough (some b) len e (size, rest, holds) t =
      let same : str ≡ record { buffer = some b; allocated = length b } = ground (arith, e, size) in
      inr (b, ap (λ s. returns (success, s)) same, omega (arith, t, size), (refl, rest, holds))

  -- What `str_alloc` returns for a string that holds the text: it fails and changes nothing, or there
  -- is room for `len` bytes and a NUL behind the text.
  pub str_alloc_lem : (len : ℕ) → len + 1 < 2 ^ 63 → Room (str_alloc get str len) str text len
  unfolding str_alloc
  str_alloc_lem len bound =
      let len_same : (len + 1) % size_max ≡ len + 1 = omega (arith, bound) in
      elim (Bool-cases (ltb len str.allocated)) [
        | inl e ↦ rw e (enough str.buffer len refl held (ground (arith, e)))
        | inr e ↦ rw (e, len_same) (widen (alloc_more_lem (len + 1) (ground (arith, e)) bound))
      ]
    where
      widen : {r : Run (IscResult × LdString)} → Room r str text (len + 1) → Room r str text len
      widen (inl e) = inl e
      widen (inr (b, e, room, there)) = inr (b, e, omega (arith, room), there)

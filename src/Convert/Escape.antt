-- ===== src/Convert/Escape.antt =====
-- `dns_to_ldap_dn_escape` of src/ldap_convert.c. A string is the list of its bytes without the
-- terminating NUL, so the byte at its length reads as 0. `char` is signed.
pub mod Decode
pub mod Loop
pub mod Rounds
pub mod Output
pub mod Clean
mod Tests
use bind_dyndb_ldap_pagure_i.Prelude.{
  ℕ, zero, suc, ◌+◌, ◌-◌, ◌*◌, ◌/◌, ◌%◌, Bool, true, false, ◌&&◌, ◌||◌, Option, none, some, List,
  [], ◌∷◌, ◌++◌, length, take, drop, get_or, ltb, leb, ◌==◌, if◌then◌else◌,
}
use bind_dyndb_ldap_pagure_i.Isc.{
  IscResult, nomemory, nospace, badescape, Result, ok, err, Run, returns, blocks, ◌>>=◌,
}

-- `isdigit` and `isalnum` of the C locale.
unfoldable pub is_digit : ℕ → Bool
is_digit c = leb b'0' c && leb c b'9'

unfoldable pub is_alnum : ℕ → Bool
unfolding is_digit
is_alnum c = is_digit c || (leb b'A' c && leb c b'Z') || (leb b'a' c && leb c b'z')

-- The characters that are copied as they are.
unfoldable pub is_nice : ℕ → Bool
unfolding is_alnum
is_nice c = is_alnum c || c == b'.' || c == b'-' || c == b'_'

-- An `int`, of which only the values from 0 to 255 matter: `%02x` prints more than two digits for
-- every other one.
unfoldable pub signed_char : ℕ → Option ℕ
signed_char c = if ltb c 128 then some c else none

-- `100 * (d1 - '0') + 10 * (d2 - '0') + (d3 - '0')` on signed characters. Only the first is known
-- to be a digit. Each character is taken with 128 added, so that no term is negative.
unfoldable pub decimal : ℕ → ℕ → ℕ → Option ℕ
decimal d1 d2 d3 =
    let sum = 100 * ((d1 + 128) % 256) + 10 * ((d2 + 128) % 256) + (d3 + 128) % 256 in
    if ltb sum 19536 then none else some (sum - 19536)

unfoldable pub hex_digit : ℕ → ℕ
hex_digit n = if ltb n 10 then b'0' + n else b'a' + (n - 10)

-- `isc_string_printf(.., 4, "\\%02x", ascii_val)`: three characters and the NUL, or ISC_R_NOSPACE.
unfoldable pub print_hex : Option ℕ → Result (List ℕ)
unfolding hex_digit
print_hex none = err nospace
print_hex (some v) =
    if ltb v 256 then ok (b'\\' ∷ hex_digit (v / 16) ∷ hex_digit (v % 16) ∷ []) else err nospace

-- The value of the escape sequence or raw character at `idx`, with the number of characters that
-- it takes, or DNS_R_BADESCAPE.
unfoldable pub ascii_val : List ℕ → ℕ → Result (Option ℕ × ℕ)
unfolding decimal signed_char
ascii_val s idx =
    let at = λ (i : ℕ). get_or s i 0 in
    if at idx == b'\\'
    then (if ltb (idx + 1) (length s)
        then (if is_digit (at (idx + 1))
            then (if ltb (idx + 3) (length s)
                then ok (decimal (at (idx + 1)) (at (idx + 2)) (at (idx + 3)), 4)
                else err badescape)
            else ok (signed_char (at (idx + 1)), 2))
        else err badescape)
    else ok (signed_char (at idx), 1)

-- What `memcpy` copies of the part that began at `first`, if one is open.
abbrev pub pending : List ℕ → Option ℕ → ℕ → List ℕ
pending s none idx = []
pending s (some first) idx = take (idx - first) (drop first s)

abbrev pub open_part : Option ℕ → ℕ → ℕ
open_part none idx = idx
open_part (some first) idx = first

-- The loop over `dns_idx`, with `idx_symb_first` and the output so far.
unfoldable pub escape_loop : ℕ → List ℕ → ℕ → Option ℕ → List ℕ → Run (Result (List ℕ))
escape_loop zero s idx first out = blocks
escape_loop (suc fuel) s idx first out =
    let nice = escape_loop fuel s (idx + 1) (some (open_part first idx)) out in
    let go = λ (n : ℕ) (hex : List ℕ).
      escape_loop fuel s (idx + n) none ((out ++ pending s first idx) ++ hex) in
    if ltb idx (length s)
    then (if is_nice (get_or s idx 0) then nice else elim (ascii_val s idx) [
      | err r ↦ returns (err r)
      | ok (v, n) ↦ elim (print_hex v) [ err r ↦ returns (err r) | ok hex ↦ go n hex ]
    ])
    else returns (ok (out ++ pending s first idx))

-- `alloc` says whether so many bytes can be allocated.
unfoldable pub dns_to_ldap_dn_escape : (ℕ → Bool) → List ℕ → Run (Result (List ℕ))
dns_to_ldap_dn_escape alloc s =
    if alloc (3 * length s + 1)
    then escape_loop (suc (length s)) s 0 none []
    else returns (err nomemory)

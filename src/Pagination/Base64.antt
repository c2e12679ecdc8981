-- ===== src/Pagination/Base64.antt =====
-- `base64.urlsafe_b64encode` and `urlsafe_b64decode` of the language's library, as the cursor tokens
-- use them: on lists of bytes and of character codes.
pub mod RoundTrip
use munavvar_a.Prelude.{
  ℕ, zero, suc, ◌+◌, ◌-◌, ◌*◌, ◌/◌, ◌%◌, ◌<◌, Bool, true, false, ◌&&◌, ◌||◌, ◌==◌, ltb, leb, Option,
  none, some, List, [], ◌∷◌, if◌then◌else◌,
}

-- The URL-safe alphabet: A-Z a-z 0-9 - _
unfoldable pub char_of : ℕ → ℕ
char_of n =
    if ltb n 26
    then n + 65
    else if ltb n 52
    then n + 71
    else if ltb n 62
    then n - 4
    else if n == 62
    then 45
    else 95

-- The value of a character; the decoder skips characters that have none. The standard `+` and `/`
-- count too, since the decoder replaces `-` and `_` by them.
unfoldable pub sextet_of : ℕ → Option ℕ
sextet_of c =
    if leb 65 c && leb c 90
    then some (c - 65)
    else if leb 97 c && leb c 122
    then some (c - 71)
    else if leb 48 c && leb c 57
    then some (c + 4)
    else if c == 45 || c == 43
    then some 62
    else if c == 95 || c == 47
    then some 63
    else none

abbrev pub pad : ℕ
pad = 61

-- Three bytes to four characters, with `=` for what the last group lacks.
unfoldable pub b64encode : List ℕ → List ℕ
b64encode [] = []
b64encode (a ∷ []) = char_of (a / 4) ∷ char_of (a % 4 * 16) ∷ pad ∷ pad ∷ []
b64encode (a ∷ b ∷ []) =
    char_of (a / 4) ∷ char_of (a % 4 * 16 + b / 16) ∷ char_of (b % 16 * 4) ∷ pad ∷ []
b64encode (a ∷ b ∷ c ∷ rest) =
    char_of (a / 4)
    ∷ char_of (a % 4 * 16 + b / 16)
    ∷ char_of (b % 16 * 4 + c / 64)
    ∷ char_of (c % 64)
    ∷ b64encode rest

-- Put a byte in front of what is decoded later.
abbrev pub emit : ℕ → Option (List ℕ) → Option (List ℕ)
emit b none = none
emit b (some bs) = some (b ∷ bs)

-- The loop of the decoder: its place in a group of four, the bits left over, and the pads in a
-- row. A pad that completes a group ends the input; a group that is begun and not ended is an
-- error.
unfoldable pub decode_from : ℕ → ℕ → ℕ → List ℕ → Option (List ℕ)
decode_from quad_pos left pads [] = if quad_pos == 0 then some [] else none
decode_from quad_pos left pads (c ∷ cs) =
    let after_pad = decode_from quad_pos left (if leb 2 quad_pos then pads + 1 else pads) cs in
    let skipped = decode_from quad_pos left pads cs in
    if c == pad
    then if leb 2 quad_pos && leb 4 (quad_pos + pads + 1) then some [] else after_pad
    else elim (sextet_of c) [
      | none ↦ skipped
      | some s ↦
          let first = decode_from 1 s 0 cs in
          let second = emit (left * 4 + s / 16) (decode_from 2 (s % 16) 0 cs) in
          let third = emit (left * 16 + s / 4) (decode_from 3 (s % 4) 0 cs) in
          let fourth = emit (left * 64 + s) (decode_from 0 0 0 cs) in
          if quad_pos == 0
          then first
          else if quad_pos == 1
          then second
          else if quad_pos == 2
          then third
          else fourth
    ]

unfoldable pub b64decode : List ℕ → Option (List ℕ)
b64decode cs = decode_from 0 0 0 cs

abbrev pub is_empty_text : List ℕ → Bool
is_empty_text [] = true
is_empty_text (c ∷ cs) = false

-- `text.rstrip("=")`
unfoldable pub rstrip_pad : List ℕ → List ℕ
rstrip_pad [] = []
rstrip_pad (c ∷ cs) =
    let rest = rstrip_pad cs in if c == pad && is_empty_text rest then [] else c ∷ rest

-- `"=" * n`
unfoldable pub pads : ℕ → List ℕ
pads zero = []
pads (suc n) = pad ∷ pads n

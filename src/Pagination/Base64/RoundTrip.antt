-- ===== src/Pagination/Base64/RoundTrip.antt =====
-- A text of bytes survives encoding, the removal of its padding and decoding with padding put back.
use munavvar_a.Prelude.{
  ℕ, ◌+◌, ◌-◌, ◌*◌, ◌/◌, ◌%◌, ◌<◌, ◌≡◌, refl, ap, false, ◌==◌, some, List, [], ◌∷◌, ◌++◌, length,
  arith,
}
use munavvar_a.Pagination.Base64.{
  char_of, sextet_of, pad, b64encode, emit, decode_from, b64decode, rstrip_pad, pads,
}

abbrev pub AllBytes : List ℕ → Type 0
AllBytes [] = Unit
AllBytes (b ∷ bs) = (b < 256) × AllBytes bs

sextet_of-char_of : (n : ℕ) → n < 64 → sextet_of (char_of n) ≡ some n
unfolding sextet_of char_of
sextet_of-char_of n h = ground arith

char_of-ne_pad : (n : ℕ) → (char_of n == pad) ≡ false
unfolding char_of
char_of-ne_pad n = ground arith

-- One character of the alphabet at each place of a group.
char_first :
    (n : ℕ) (cs : List ℕ) → n < 64 → decode_from 0 0 0 (char_of n ∷ cs) ≡ decode_from 1 n 0 cs
unfolding decode_from
char_first n cs h = rw (char_of-ne_pad n, sextet_of-char_of n h)

char_second :
    (left n : ℕ) (cs : List ℕ)
    → n < 64
    → decode_from 1 left 0 (char_of n ∷ cs) ≡ emit (left * 4 + n / 16) (decode_from 2 (n % 16) 0 cs)
unfolding decode_from
char_second left n cs h = rw (char_of-ne_pad n, sextet_of-char_of n h)

char_third :
    (left n : ℕ) (cs : List ℕ)
    → n < 64
    → decode_from 2 left 0 (char_of n ∷ cs) ≡ emit (left * 16 + n / 4) (decode_from 3 (n % 4) 0 cs)
unfolding decode_from
char_third left n cs h = rw (char_of-ne_pad n, sextet_of-char_of n h)

char_fourth :
    (left n : ℕ) (cs : List ℕ)
    → n < 64
    → decode_from 3 left 0 (char_of n ∷ cs) ≡ emit (left * 64 + n) (decode_from 0 0 0 cs)
unfolding decode_from
char_fourth left n cs h = rw (char_of-ne_pad n, sextet_of-char_of n h)

rstrip_char : (n : ℕ) (cs : List ℕ) → rstrip_pad (char_of n ∷ cs) ≡ char_of n ∷ rstrip_pad cs
unfolding rstrip_pad
rstrip_char n cs = rw (char_of-ne_pad n)

-- The padding that the decoder's caller puts back.
abbrev padded : List ℕ → List ℕ
padded cs = cs ++ pads ((4 - length cs % 4) % 4)

padded_four : (a b c d : ℕ) (cs : List ℕ) → padded (a ∷ b ∷ c ∷ d ∷ cs) ≡ a ∷ b ∷ c ∷ d ∷ padded cs
padded_four a b c d cs =
    let same : (4 - length (a ∷ b ∷ c ∷ d ∷ cs) % 4) % 4 ≡ (4 - length cs % 4) % 4 = omega arith in
    ap (λ (n : ℕ). a ∷ b ∷ c ∷ d ∷ (cs ++ pads n)) same

group_decoded :
    (a b c : ℕ) (cs : List ℕ)
    → a < 256
    → b < 256
    → c < 256
    → decode_from 0 0 0 (
        char_of (a / 4)
        ∷ char_of (a % 4 * 16 + b / 16)
        ∷ char_of (b % 16 * 4 + c / 64)
        ∷ char_of (c % 64)
        ∷ cs)
      ≡ emit a (emit b (emit c (decode_from 0 0 0 cs)))
group_decoded a b c cs ha hb hc =
    let e₁ : a / 4 * 4 + (a % 4 * 16 + b / 16) / 16 ≡ a = omega arith in
    let e₂ : (a % 4 * 16 + b / 16) % 16 * 16 + (b % 16 * 4 + c / 64) / 4 ≡ b = omega arith in
    let e₃ : (b % 16 * 4 + c / 64) % 4 * 64 + c % 64 ≡ c = omega arith in
    rw (
      char_first (a / 4)
          (char_of (a % 4 * 16 + b / 16) ∷ char_of (b % 16 * 4 + c / 64) ∷ char_of (c % 64) ∷ cs)
          (omega arith),
      char_second (a / 4) (a % 4 * 16 + b / 16)
          (char_of (b % 16 * 4 + c / 64) ∷ char_of (c % 64) ∷ cs) (omega arith),
      char_third ((a % 4 * 16 + b / 16) % 16) (b % 16 * 4 + c / 64) (char_of (c % 64) ∷ cs)
          (omega arith),
      char_fourth ((b % 16 * 4 + c / 64) % 4) (c % 64) cs (omega arith),
      e₁,
      e₂,
      e₃,
    )

one_left :
    (a : ℕ)
    → a < 256
    → decode_from 0 0 0 (char_of (a / 4) ∷ char_of (a % 4 * 16) ∷ pad ∷ pad ∷ []) ≡ some (a ∷ [])
unfolding decode_from
one_left a h =
    let e₁ : a / 4 * 4 + a % 4 * 16 / 16 ≡ a = omega arith in
    rw (
      char_first (a / 4) (char_of (a % 4 * 16) ∷ pad ∷ pad ∷ []) (omega arith),
      char_second (a / 4) (a % 4 * 16) (pad ∷ pad ∷ []) (omega arith),
      e₁,
    )

two_left :
    (a b : ℕ)
    → a < 256
    → b < 256
    → decode_from 0 0 0
        (char_of (a / 4) ∷ char_of (a % 4 * 16 + b / 16) ∷ char_of (b % 16 * 4) ∷ pad ∷ [])
      ≡ some (a ∷ b ∷ [])
unfolding decode_from
two_left a b ha hb =
    let e₁ : a / 4 * 4 + (a % 4 * 16 + b / 16) / 16 ≡ a = omega arith in
    let e₂ : (a % 4 * 16 + b / 16) % 16 * 16 + b % 16 * 4 / 4 ≡ b = omega arith in
    rw (
      char_first (a / 4) (char_of (a % 4 * 16 + b / 16) ∷ char_of (b % 16 * 4) ∷ pad ∷ [])
          (omega arith),
      char_second (a / 4) (a % 4 * 16 + b / 16) (char_of (b % 16 * 4) ∷ pad ∷ []) (omega arith),
      char_third ((a % 4 * 16 + b / 16) % 16) (b % 16 * 4) (pad ∷ []) (omega arith),
      e₁,
      e₂,
    )

strip_one :
    (a : ℕ)
    → padded (rstrip_pad (b64encode (a ∷ [])))
      ≡ char_of (a / 4) ∷ char_of (a % 4 * 16) ∷ pad ∷ pad ∷ []
unfolding b64encode rstrip_pad pads
strip_one a = rw (char_of-ne_pad (a / 4), char_of-ne_pad (a % 4 * 16))

strip_two :
    (a b : ℕ)
    → padded (rstrip_pad (b64encode (a ∷ b ∷ [])))
      ≡ char_of (a / 4) ∷ char_of (a % 4 * 16 + b / 16) ∷ char_of (b % 16 * 4) ∷ pad ∷ []
unfolding b64encode rstrip_pad pads
strip_two a b =
    rw (char_of-ne_pad (a / 4), char_of-ne_pad (a % 4 * 16 + b / 16), char_of-ne_pad (b % 16 * 4))

strip_group :
    (a b c : ℕ) (bs : List ℕ)
    → padded (rstrip_pad (b64encode (a ∷ b ∷ c ∷ bs)))
      ≡ char_of (a / 4)
        ∷ char_of (a % 4 * 16 + b / 16)
        ∷ char_of (b % 16 * 4 + c / 64)
        ∷ char_of (c % 64)
        ∷ padded (rstrip_pad (b64encode bs))
unfolding b64encode
strip_group a b c bs =
    rw
      (
        rstrip_char (a / 4) (
            char_of (a % 4 * 16 + b / 16)
            ∷ char_of (b % 16 * 4 + c / 64)
            ∷ char_of (c % 64)
            ∷ b64encode bs),
        rstrip_char (a % 4 * 16 + b / 16)
            (char_of (b % 16 * 4 + c / 64) ∷ char_of (c % 64) ∷ b64encode bs),
        rstrip_char (b % 16 * 4 + c / 64) (char_of (c % 64) ∷ b64encode bs),
        rstrip_char (c % 64) (b64encode bs),
      )
      (padded_four (char_of (a / 4)) (char_of (a % 4 * 16 + b / 16)) (char_of (b % 16 * 4 + c / 64))
        (char_of (c % 64)) (rstrip_pad (b64encode bs)))

-- What the token's base64 layer encodes it decodes again.
pub b64decode-b64encode :
    (bs : List ℕ) → AllBytes bs → b64decode (padded (rstrip_pad (b64encode bs))) ≡ some bs
unfolding b64decode
b64decode-b64encode [] h = unfold b64encode rstrip_pad pads decode_from in refl
b64decode-b64encode (a ∷ []) h = rw (strip_one a) (one_left a h.0)
b64decode-b64encode (a ∷ b ∷ []) h = rw (strip_two a b) (two_left a b h.0 h.1.0)
b64decode-b64encode (a ∷ b ∷ c ∷ bs) h = rw (
  strip_group a b c bs,
  group_decoded a b c (padded (rstrip_pad (b64encode bs))) h.0 h.1.0 h.1.1.0,
  b64decode-b64encode bs h.1.1.1,
)

-- ===== src/Pagination/Cursor/RoundTrip.antt =====
-- A cursor token is read back as the value and the id that it was made of.
use munavvar_a.Prelude.{
  ℕ, suc, ◌≡◌, refl, Bool, false, ◌==◌, or-false, any, none, some, List, [], ◌∷◌, ◌++◌,
}
use munavvar_a.Prelude.Int.{ℤ, pos}
use munavvar_a.Pagination.Base64.{b64decode, decode_from, pads}
use munavvar_a.Pagination.Base64.RoundTrip.{AllBytes, b64decode-b64encode}
use munavvar_a.Pagination.Cursor.{
  Formats, SortValue, bar, version_1, int_of_bool, break_bar, split_bar, kind_and_text,
  cursor_payload, encode_cursor, parse_value, parse_parts, decode_cursor,
}

abbrev pub has_bar : List ℕ → Bool
has_bar = any (λ c. c == bar)

-- What the language's library documents of the texts: each is read back, UTF-8 is made of bytes,
-- and the text of a UUID has no bar.
pub record IsReadable (f : Formats) : Type 0 where
  pub uuid_read : (k : ℕ) → f.parse_uuid (f.uuid_text k) ≡ some k
  pub uuid_plain : (k : ℕ) → has_bar (f.uuid_text k) ≡ false
  pub time_read : (t : ℕ) → f.parse_time (f.time_text t) ≡ some t
  pub int_read : (n : ℤ) → f.parse_int (f.int_text n) ≡ some n
  pub utf8_read : (cs : List ℕ) → f.decode_utf8 (f.encode_utf8 cs) ≡ some cs
  pub utf8_empty : f.decode_utf8 [] ≡ some []
  pub utf8_bytes : (cs : List ℕ) → AllBytes (f.encode_utf8 cs)

-- A Boolean comes back as the number that it is.
abbrev pub normalized : SortValue → SortValue
normalized (SortValue.flag b) = SortValue.num (pos (int_of_bool b))
normalized v = v

-- A piece without a bar is cut off whole.
break_bar-append :
    (piece rest : List ℕ)
    → has_bar piece ≡ false
    → break_bar (piece ++ (bar ∷ rest)) ≡ (piece, some rest)
unfolding break_bar
break_bar-append [] rest h = refl
break_bar-append (c ∷ cs) rest h =
    let (first, others) = or-false (c == bar) (has_bar cs) h in
    rw (break_bar-append cs rest others, first)

split_bar-append :
    (n : ℕ) (piece rest : List ℕ)
    → has_bar piece ≡ false
    → split_bar (suc n) (piece ++ (bar ∷ rest)) ≡ piece ∷ split_bar n rest
unfolding split_bar
split_bar-append n piece rest h = rw (break_bar-append piece rest h)

split_payload :
    (kind id_text sv : List ℕ)
    → has_bar kind ≡ false
    → has_bar id_text ≡ false
    → split_bar 3 (version_1 ++ (bar ∷ (kind ++ (bar ∷ (id_text ++ (bar ∷ sv))))))
      ≡ version_1 ∷ kind ∷ id_text ∷ sv ∷ []
split_payload kind id_text sv hk hi =
    rw
      (
        split_bar-append 2 version_1 (kind ++ (bar ∷ (id_text ++ (bar ∷ sv)))) refl,
        split_bar-append 1 kind (id_text ++ (bar ∷ sv)) hk,
        split_bar-append 0 id_text sv hi,
      )
      (unfold split_bar in refl)

kind_plain : (f : Formats) (v : SortValue) → has_bar (kind_and_text f v).0 ≡ false
unfolding kind_and_text
kind_plain f (SortValue.time t) = refl
kind_plain f (SortValue.flag b) = refl
kind_plain f (SortValue.num n) = refl
kind_plain f (SortValue.text s) = refl

value_read :
    (f : Formats) (v : SortValue)
    → IsReadable f
    → parse_value f (kind_and_text f v).0 (kind_and_text f v).1 ≡ some (normalized v)
unfolding kind_and_text parse_value
value_read f (SortValue.time t) r = rw (r.time_read t)
value_read f (SortValue.flag b) r = rw (r.int_read (pos (int_of_bool b)))
value_read f (SortValue.num n) r = rw (r.int_read n)
value_read f (SortValue.text s) r = refl

payload_read :
    (f : Formats) (v : SortValue) (k : ℕ)
    → IsReadable f
    → parse_parts f (split_bar 3 (cursor_payload f v k)) ≡ some (normalized v, k)
unfolding cursor_payload parse_parts
payload_read f v k r = rw (
  split_payload (kind_and_text f v).0 (f.uuid_text k) (kind_and_text f v).1 (kind_plain f v)
      (r.uuid_plain k),
  r.uuid_read k,
  value_read f v r,
)

-- Decoding a token that was encoded gives back the value, a Boolean as a number, and the id,
-- whatever the value: a text may hold bars.
pub decode_cursor-encode_cursor :
    (f : Formats) (v : SortValue) (k : ℕ)
    → IsReadable f
    → decode_cursor f (encode_cursor f v k) ≡ some (normalized v, k)
unfolding decode_cursor encode_cursor
decode_cursor-encode_cursor f v k r = rw (
  b64decode-b64encode (f.encode_utf8 (cursor_payload f v k)) (r.utf8_bytes (cursor_payload f v k)),
  decode_cursor,
  r.utf8_read (cursor_payload f v k),
  payload_read f v k r,
)

-- The empty token is refused.
pub decode_cursor-empty : (f : Formats) → IsReadable f → decode_cursor f [] ≡ none
unfolding decode_cursor b64decode decode_from pads split_bar break_bar parse_parts
decode_cursor-empty f r = rw r.utf8_empty

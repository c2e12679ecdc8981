-- ===== src/Examples/Paging.antt =====
-- Cursors and pages, with texts in unary.
use munavvar_a.Prelude.{
  ℕ, zero, suc, ◌+◌, ◌≡◌, refl, ap, ◌∙◌, false, ◌==◌, Option, some, none, List, [], ◌∷◌, length,
  if◌then◌else◌, keep, arith,
}
use mathlib.Core.List.{Perm}
use munavvar_a.Prelude.Int.{ℤ, pos, negsuc}
use munavvar_a.Pagination.Base64.RoundTrip.{AllBytes}
use munavvar_a.Pagination.Cursor.{Formats, SortValue, encode_cursor, decode_cursor}
use munavvar_a.Pagination.Cursor.RoundTrip.{IsReadable, has_bar, decode_cursor-encode_cursor}
use munavvar_a.Pagination.Transfers.{TransferRow, TransferFilter, matches, read_pages}
use munavvar_a.Pagination.Transfers.Cuts.{IsDescending}
use munavvar_a.Pagination.Transfers.Complete.{read_pages_complete}

-- A number is so many ones, and a negative one has a sign before it.
unfoldable ones : ℕ → List ℕ
ones zero = []
ones (suc n) = 49 ∷ ones n

abbrev signed_text : ℤ → List ℕ
signed_text (pos n) = ones n
signed_text (negsuc n) = 45 ∷ ones n

abbrev parse_signed : List ℕ → Option ℤ
parse_signed [] = some (pos 0)
parse_signed (c ∷ cs) = if c == 45 then some (negsuc (length cs)) else some (pos (suc (length cs)))

-- A code point is so many zeros and a one.
unfoldable zeros : ℕ → List ℕ → List ℕ
zeros zero bs = 1 ∷ bs
zeros (suc n) bs = 0 ∷ zeros n bs

unfoldable encoded : List ℕ → List ℕ
encoded [] = []
encoded (c ∷ cs) = zeros c (encoded cs)

unfoldable decoded : ℕ → List ℕ → List ℕ
decoded n [] = []
decoded n (b ∷ bs) =
    let more = decoded (suc n) bs in let next = decoded 0 bs in if b == 0 then more else n ∷ next

abbrev unary : Formats
unary = record {
  uuid_text = ones;
  parse_uuid = λ cs. some (length cs);
  time_text = ones;
  parse_time = λ cs. some (length cs);
  int_text = signed_text;
  parse_int = parse_signed;
  encode_utf8 = encoded;
  decode_utf8 = λ bs. some (decoded 0 bs);
}

length-ones : (n : ℕ) → length (ones n) ≡ n
unfolding ones
length-ones zero = refl
length-ones (suc n) = ap suc (length-ones n)

ones_plain : (n : ℕ) → has_bar (ones n) ≡ false
unfolding ones
ones_plain zero = refl
ones_plain (suc n) = ones_plain n

signed_read : (n : ℤ) → parse_signed (signed_text n) ≡ some n
unfolding ones
signed_read (pos zero) = refl
signed_read (pos (suc n)) = ap (λ m. some (pos (suc m))) (length-ones n)
signed_read (negsuc n) = ap (λ m. some (negsuc m)) (length-ones n)

decoded-zeros : (m n : ℕ) (bs : List ℕ) → decoded m (zeros n bs) ≡ (m + n) ∷ decoded 0 bs
unfolding decoded zeros
decoded-zeros m zero bs = ap (λ k. k ∷ decoded 0 bs) (omega arith)
decoded-zeros m (suc n) bs = decoded-zeros (suc m) n bs ∙ ap (λ k. k ∷ decoded 0 bs) (omega arith)

decoded-encoded : (cs : List ℕ) → decoded 0 (encoded cs) ≡ cs
unfolding encoded
decoded-encoded [] = unfold decoded in refl
decoded-encoded (c ∷ cs) =
    rw (decoded-zeros 0 c (encoded cs), decoded-encoded cs) (ap (λ k. k ∷ cs) (omega arith))

zeros_bytes : (n : ℕ) (bs : List ℕ) → AllBytes bs → AllBytes (zeros n bs)
unfolding zeros
zeros_bytes zero bs h = (omega arith, h)
zeros_bytes (suc n) bs h = (omega arith, zeros_bytes n bs h)

encoded_bytes : (cs : List ℕ) → AllBytes (encoded cs)
unfolding encoded
encoded_bytes [] = tt
encoded_bytes (c ∷ cs) = zeros_bytes c (encoded cs) (encoded_bytes cs)

unary-IsReadable : IsReadable unary
unary-IsReadable = record {
  uuid_read = λ k. ap some (length-ones k);
  uuid_plain = ones_plain;
  time_read = λ t. ap some (length-ones t);
  int_read = signed_read;
  utf8_read = λ cs. ap some (decoded-encoded cs);
  utf8_empty = unfold decoded in refl;
  utf8_bytes = encoded_bytes;
}

decode_cursor-encode_cursor_example :
    decode_cursor unary (encode_cursor unary (SortValue.text (b'a' ∷ b'|' ∷ [])) 3)
    ≡ some (SortValue.text (b'a' ∷ b'|' ∷ []), 3)
decode_cursor-encode_cursor_example =
    decode_cursor-encode_cursor unary (SortValue.text (b'a' ∷ b'|' ∷ [])) 3 unary-IsReadable

abbrev row : ℕ → ℕ → TransferRow
row k t = record { id = k; created_at = t; status = 0; type = 0; from_id = 1; to_id = 2 }

abbrev rows : List TransferRow
rows = row 2 7 ∷ row 4 9 ∷ row 3 9 ∷ []

abbrev recent : TransferFilter
recent = record {
  status = some 0;
  type = none;
  from_id = none;
  to_id = none;
  date_from = some 8;
  date_to = none;
  warehouse_id = none;
  owned_inventories = none;
}

read_pages_complete_example :
    (all : List TransferRow) × (read_pages unary 4 1 none recent rows ≡ some all)
    × IsDescending all
    × Perm all (keep (matches recent) rows)
read_pages_complete_example =
    read_pages_complete unary 0 recent rows unary-IsReadable
      ((refl, (refl, tt)), ((refl, tt), (tt, tt)))

-- ===== src/Pagination/Transfers/Complete.antt =====
-- Reading the listing of transfers page by page loses and repeats nothing.
use munavvar_a.Prelude.{
  ℕ, zero, suc, ◌+◌, ◌<◌, ◌≤◌, ◌≡◌, refl, sym, ap, subst, ◌∙◌, inl, inr, Bool-cases, Bool, true,
  false, ltb, ltb→lt, Option, none, some, List, [], ◌∷◌, ◌++◌, length, keep, take, arith,
}
use mathlib.Core.List.{append_assoc, Perm}
use munavvar_a.Pagination.Cursor.{Formats, SortValue, encode_cursor}
use munavvar_a.Pagination.Cursor.RoundTrip.{IsReadable, decode_cursor-encode_cursor}
use munavvar_a.Pagination.Transfers.{
  TransferRow, TransferFilter, matches, passes_cursor, in_order, query_transfers, build_cursor_meta,
  read_token, search_transfers_cursor, read_pages,
}
use munavvar_a.Pagination.Transfers.Cuts.{
  IsDescending, keep_both, keep_after, Cut, cut, last?-append, take_all, take-take, length-take,
  read_token-time, after,
}
use munavvar_a.Pagination.Transfers.Order.{
  IsApart, keep-IsApart, keep-in_order, in_order-IsDescending, in_order-Perm, length-in_order,
}

-- All rows that match, in the order of the listing.
abbrev listing : TransferFilter → List TransferRow → List TransferRow
listing filter rows = in_order (keep (matches filter) rows)

-- The page that a token asks for, in terms of what is left of the listing.
page_of :
    (f : Formats) (size : ℕ) (token : Option (List ℕ)) (cursor : Option (ℕ × ℕ))
    (filter : TransferFilter) (rows left : List TransferRow)
    → IsApart rows
    → read_token f token ≡ some cursor
    → after cursor (listing filter rows) ≡ left
    → search_transfers_cursor f size token filter rows
      ≡ some (build_cursor_meta f (take (suc size) left) size)
unfolding search_transfers_cursor query_transfers
page_of f size token cursor filter rows left apart read e =
    let n : size + 1 ≡ suc size = omega arith in
    let matching = keep (matches filter) rows in
    rw (
      read,
      search_transfers_cursor,
      keep_both (matches filter) (passes_cursor cursor) rows,
      keep-in_order (passes_cursor cursor) matching (keep-IsApart (matches filter) rows apart),
      e,
      n,
    )

last_page :
    (f : Formats) (size : ℕ) (left : List TransferRow)
    → ltb size (length left) ≡ false
    → length left ≤ size
    → ((build_cursor_meta f (take (suc size) left) size).0 ≡ left)
      × ((build_cursor_meta f (take (suc size) left) size).1.next_cursor ≡ none)
unfolding build_cursor_meta
last_page f size left e le =
    (take-take size left ∙ take_all size left le, rw (length-take size left, e))

full_page :
    (f : Formats) (n : ℕ) (left : List TransferRow) (c : Cut n left)
    → ltb (suc n) (length left) ≡ true
    → ((build_cursor_meta f (take (suc (suc n)) left) (suc n)).0 ≡ c.front ++ (c.final ∷ []))
      × ((build_cursor_meta f (take (suc (suc n)) left) (suc n)).1.next_cursor
          ≡ some (encode_cursor f (SortValue.time c.final.created_at) c.final.id))
unfolding build_cursor_meta
full_page f n left c e = (
  take-take (suc n) left ∙ c.page,
  rw (length-take (suc n) left, e, take-take (suc n) left, c.page, last?-append c.front c.final),
)

-- The rows after the last row of a page are what the page leaves.
after-Cut :
    (done left all : List TransferRow) (n : ℕ) (c : Cut n left)
    → IsDescending all
    → all ≡ done ++ left
    → after (some (c.final.created_at, c.final.id)) all ≡ c.rest
after-Cut done left all n c d e =
    let split : all ≡ (done ++ c.front) ++ (c.final ∷ c.rest) =
      e ∙ ap (λ t. done ++ t) c.whole ∙ sym (append_assoc done c.front (c.final ∷ c.rest)) in
    rw split (keep_after (done ++ c.front) c.final c.rest (subst IsDescending split d))

done-Cut :
    (done left all : List TransferRow) (n : ℕ) (c : Cut n left)
    → all ≡ done ++ left
    → all ≡ (done ++ (c.front ++ (c.final ∷ []))) ++ c.rest
done-Cut done left all n c e =
    e
    ∙ ap (λ t. done ++ t) (c.whole ∙ sym (append_assoc c.front (c.final ∷ []) c.rest))
    ∙ sym (append_assoc done (c.front ++ (c.final ∷ [])) c.rest)

read_pages_last :
    (f : Formats) (fuel size : ℕ) (token : Option (List ℕ)) (filter : TransferFilter)
    (rows left : List TransferRow)
    → search_transfers_cursor f size token filter rows
      ≡ some (build_cursor_meta f (take (suc size) left) size)
    → ltb size (length left) ≡ false
    → length left ≤ size
    → read_pages f (suc fuel) size token filter rows ≡ some left
unfolding read_pages
read_pages_last f fuel size token filter rows left answer e le =
    let shown = last_page f size left e le in rw (answer, read_pages, shown.1, shown.0)

read_pages_more :
    (f : Formats) (fuel n : ℕ) (token : Option (List ℕ)) (filter : TransferFilter)
    (rows left : List TransferRow) (c : Cut n left)
    → search_transfers_cursor f (suc n) token filter rows
      ≡ some (build_cursor_meta f (take (suc (suc n)) left) (suc n))
    → ltb (suc n) (length left) ≡ true
    → read_pages f fuel
        (suc n)
        (some (encode_cursor f (SortValue.time c.final.created_at) c.final.id))
        filter
        rows
      ≡ some c.rest
    → read_pages f (suc fuel) (suc n) token filter rows ≡ some left
unfolding read_pages
read_pages_more f fuel n token filter rows left c answer e more =
    let shown = full_page f n left c e in
    rw (answer, read_pages, shown.1, more, shown.0)
      (ap (λ t. some t) (append_assoc c.front (c.final ∷ []) c.rest ∙ sym c.whole))

not_longer : (a b : ℕ) → ltb a b ≡ false → b ≤ a
not_longer a b h = ground arith

module _ (f : Formats) (r : IsReadable f) (n : ℕ) (filter : TransferFilter)
    (rows : List TransferRow) where
  -- From a token onwards the pages give what is left of the listing.
  read_pages_left :
      (fuel : ℕ) (token : Option (List ℕ)) (cursor : Option (ℕ × ℕ)) (done left : List TransferRow)
      → IsApart rows
      → IsDescending (listing filter rows)
      → read_token f token ≡ some cursor
      → after cursor (listing filter rows) ≡ left
      → listing filter rows ≡ done ++ left
      → length left < fuel
      → read_pages f fuel (suc n) token filter rows ≡ some left
  read_pages_left zero token cursor done left a d read e split le = absurd (omega arith)
  read_pages_left (suc fuel) token cursor done left a d read e split le =
      let answer = page_of f (suc n) token cursor filter rows left a read e in
      elim (Bool-cases (ltb (suc n) (length left))) [
        | inr short ↦
            read_pages_last f fuel (suc n) token filter rows left answer short
              (not_longer _ _ short)
        | inl long ↦
            let c : Cut n left = cut n left (ltb→lt _ _ long) in
            read_pages_more f fuel n token filter rows left c answer long (
              read_pages_left fuel
                (some (encode_cursor f (SortValue.time c.final.created_at) c.final.id))
                (some (c.final.created_at, c.final.id)) (done ++ (c.front ++ (c.final ∷ []))) c.rest
                a d
                (read_token-time f _ c.final.created_at c.final.id r
                  (decode_cursor-encode_cursor f (SortValue.time c.final.created_at) c.final.id r))
                (after-Cut done left _ n c d split) (done-Cut done left _ n c split)
                (omega (arith, c.shorter)))
      ]

keep_true : (xs : List TransferRow) → after none xs ≡ xs
keep_true [] = refl
keep_true (x ∷ xs) = ap (λ t. x ∷ t) (keep_true xs)

length-keep : (p : TransferRow → Bool) (xs : List TransferRow) → length (keep p xs) ≤ length xs
length-keep p [] = omega arith
length-keep p (x ∷ xs) = elim (Bool-cases (p x)) [
  | inl e ↦ rw e (omega (arith, length-keep p xs))
  | inr e ↦ rw e (omega (arith, length-keep p xs))
]

-- Where no two rows of the table have the same time and id, in whatever order they are stored, a
-- client that reads pages of at least one row and follows the cursors gets, within one request more
-- than there are rows, exactly the rows that match the filter, none lost and none twice, newest
-- first, and by id where times are equal.
pub read_pages_complete :
    (f : Formats) (n : ℕ) (filter : TransferFilter) (rows : List TransferRow)
    → IsReadable f
    → IsApart rows
    → (all : List TransferRow) × (read_pages f (suc (length rows)) (suc n) none filter rows
        ≡ some all)
      × IsDescending all
      × Perm all (keep (matches filter) rows)
read_pages_complete f n filter rows r a =
    let matching = keep (matches filter) rows in
    let down = in_order-IsDescending matching (keep-IsApart (matches filter) rows a) in
    (
      in_order matching,
      read_pages_left f r n filter rows (suc (length rows)) none none [] (in_order matching) a down
          (unfold read_token in refl) (keep_true (in_order matching)) refl
          (omega (arith, length-in_order matching, length-keep (matches filter) rows)),
      down,
      in_order-Perm matching,
    )

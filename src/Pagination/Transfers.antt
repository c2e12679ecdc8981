-- ===== src/Pagination/Transfers.antt =====
-- The listing of transfers page by page: `TransferRepository.search_transfers_cursor` and
-- `StockTransferService.search_transfers_cursor` of src/modules/inventory, with
-- `build_cursor_meta` of src/common/pagination.py.
pub mod Cuts
pub mod Order
pub mod Complete
use munavvar_a.Prelude.{
  ℕ, zero, suc, ◌+◌, Bool, true, false, ◌&&◌, ◌||◌, ◌==◌, ltb, leb, elem, Option, none, some, List,
  [], ◌∷◌, ◌++◌, length, keep, take, if◌then◌else◌,
}
use mathlib.Core.Option
use munavvar_a.Pagination.Cursor.{Formats, SortValue, encode_cursor, decode_cursor}

-- The columns of a transfer that the listing reads; statuses and types by their codes.
pub record TransferRow : Type 0 where
  pub id : ℕ
  pub created_at : ℕ
  pub status : ℕ
  pub type : ℕ
  pub from_id : ℕ
  pub to_id : ℕ

-- `owned_inventories` are the warehouses of `warehouse_owner_id`.
pub record TransferFilter : Type 0 where
  pub status : Option ℕ
  pub type : Option ℕ
  pub from_id : Option ℕ
  pub to_id : Option ℕ
  pub date_from : Option ℕ
  pub date_to : Option ℕ
  pub warehouse_id : Option ℕ
  pub owned_inventories : Option (List ℕ)

-- A condition that is there only if its value is.
abbrev pub if_given {ℓ} : {A : Type ℓ} → Option A → (A → Bool) → Bool
if_given none test = true
if_given (some a) test = test a

-- The WHERE clauses of the filters.
unfoldable pub matches : TransferFilter → TransferRow → Bool
matches filter r =
    if_given filter.status (λ s. r.status == s)
    && if_given filter.type (λ t. r.type == t)
    && if_given filter.from_id (λ k. r.from_id == k)
    && if_given filter.to_id (λ k. r.to_id == k)
    && if_given filter.date_from (λ d. leb d r.created_at)
    && if_given filter.date_to (λ d. leb r.created_at d)
    && if_given filter.warehouse_id (λ k. r.from_id == k || r.to_id == k)
    && if_given filter.owned_inventories (λ ks. elem r.from_id ks || elem r.to_id ks)

-- `tuple_(created_at, id) < tuple_(last_created, last_id)`
abbrev pub is_below : ℕ → ℕ → TransferRow → Bool
is_below last_created last_id r =
    ltb r.created_at last_created || (r.created_at == last_created && ltb r.id last_id)

abbrev pub passes_cursor : Option (ℕ × ℕ) → TransferRow → Bool
passes_cursor none r = true
passes_cursor (some (last_created, last_id)) r = is_below last_created last_id r

-- `ORDER BY created_at DESC, id DESC`, by insertion.
unfoldable pub insert_row : TransferRow → List TransferRow → List TransferRow
insert_row r [] = r ∷ []
insert_row r (x ∷ xs) =
    let rest = insert_row r xs in if is_below r.created_at r.id x then r ∷ x ∷ xs else x ∷ rest

unfoldable pub in_order : List TransferRow → List TransferRow
in_order [] = []
in_order (r ∷ rs) = insert_row r (in_order rs)

-- The query of the repository.
unfoldable pub query_transfers :
    ℕ → Option (ℕ × ℕ) → TransferFilter → List TransferRow → List TransferRow
query_transfers size cursor filter rows =
    take (size + 1) (in_order (keep (λ r. matches filter r && passes_cursor cursor r) rows))

-- `page_rows[-1]`
abbrev pub last? {ℓ} : {A : Type ℓ} → List A → Option A
last? [] = none
last? (x ∷ []) = some x
last? (x ∷ y ∷ ys) = last? (y ∷ ys)

pub record CursorMeta : Type 0 where
  pub size : ℕ
  pub has_more : Bool
  pub next_cursor : Option (List ℕ)

module _ (formats : Formats) where
  -- `build_cursor_meta`, with `created_at` as the sort value.
  unfoldable pub build_cursor_meta : List TransferRow → ℕ → List TransferRow × CursorMeta
  build_cursor_meta rows size =
      let has_more = ltb size (length rows) in
      let page_rows = take size rows in
      (
        page_rows,
        record {
          size = size;
          has_more = has_more;
          next_cursor =
              if has_more
              then Option.map (λ r. encode_cursor formats (SortValue.time r.created_at) r.id)
                  (last? page_rows)
              else none;
        },
      )

  -- The cursor of a token; none where the code raises `CursorInvalidError`.
  unfoldable pub read_token : Option (List ℕ) → Option (Option (ℕ × ℕ))
  read_token none = some none
  read_token (some []) = some none
  read_token (some (c ∷ cs)) = elim (decode_cursor formats (c ∷ cs)) [
    | some (SortValue.time t, last_id) ↦ some (some (t, last_id))
    | _ ↦ none
  ]

  -- `search_transfers_cursor` of the service.
  unfoldable pub search_transfers_cursor :
      ℕ
      → Option (List ℕ)
      → TransferFilter
      → List TransferRow
      → Option (List TransferRow × CursorMeta)
  search_transfers_cursor size token filter rows = elim (read_token token) [
    | none ↦ none
    | some cursor ↦ some (build_cursor_meta (query_transfers size cursor filter rows) size)
  ]

  abbrev pub after_page : List TransferRow → Option (List TransferRow) → Option (List TransferRow)
  after_page page none = none
  after_page page (some rows) = some (page ++ rows)

  -- A client that follows `next_cursor` from page to page; none if a page is refused or the fuel
  -- runs out.
  unfoldable pub read_pages :
      ℕ → ℕ → Option (List ℕ) → TransferFilter → List TransferRow → Option (List TransferRow)
  read_pages zero size token filter rows = none
  read_pages (suc fuel) size token filter rows =
      elim (search_transfers_cursor size token filter rows) [
        | none ↦ none
        | some (page, meta) ↦ elim meta.next_cursor [
          | none ↦ some page
          | some next ↦ after_page page (read_pages fuel size (some next) filter rows)
        ]
      ]

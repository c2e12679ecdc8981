-- ===== src/Contracts/Prices.antt =====
-- The price list of a contract: `set_price_item` and `remove_price_item` of `ContractService`.
pub mod Balance
pub mod Upsert
use munavvar_a.Prelude.{
  ℕ, true, not, ◌&&◌, ◌==◌, ◌+◌, ltb, Option, none, some, List, [], ◌∷◌, ◌++◌, keep, update_where,
}
use munavvar_a.Store.{
  PriceItem, Db, Error, Result, ok, ◌>>=◌, ◌>>◌, raise_if, or_raise, one_or_none,
}
use munavvar_a.Orders.Quota.{is_price_of}

-- `price_items.get_by_contract_and_product`
unfoldable pub get_by_contract_and_product : ℕ → ℕ → List PriceItem → Result (Option PriceItem)
get_by_contract_and_product contract_id product_id pis =
    one_or_none (keep (is_price_of contract_id product_id) pis)

-- The upsert of `set_price_item`.
unfoldable pub upsert_price_item : Option PriceItem → ℕ → ℕ → ℕ → ℕ → Db → Result Db
upsert_price_item none contract_id product_id price quantity db = ok (record db {
  price_items =
      db.price_items
      ++ record {
        id = db.next_id;
        contract_id = contract_id;
        product_id = product_id;
        price = price;
        quantity = quantity;
        quantity_used = 0;
        is_active = true;
      }
        ∷ [];
  next_id = db.next_id + 1;
})
upsert_price_item (some existing) contract_id product_id price quantity db = do
  raise_if (ltb 0 quantity && ltb quantity existing.quantity_used) Error.price_item_has_usage
  ok (record db {
    price_items =
        update_where (λ pi. pi.id == existing.id)
          (λ pi. record pi { price = price; quantity = quantity }) db.price_items;
  })

-- `set_price_item`
unfoldable pub set_price_item : ℕ → ℕ → ℕ → ℕ → Db → Result Db
set_price_item contract_id product_id price quantity db = do
  existing ← get_by_contract_and_product contract_id product_id db.price_items
  upsert_price_item existing contract_id product_id price quantity db

-- `remove_price_item`
unfoldable pub remove_price_item : ℕ → ℕ → Db → Result Db
remove_price_item contract_id product_id db = do
  found ← get_by_contract_and_product contract_id product_id db.price_items
  item ← or_raise found Error.price_item_not_found
  raise_if (ltb 0 item.quantity_used) Error.price_item_has_usage
  ok (record db { price_items = keep (λ pi. not (pi.id == item.id)) db.price_items })

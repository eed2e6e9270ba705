-- ===== src/Orders/Listing.antt =====
-- The table of a tenant's orders (`list` of apps/api/src/order.service.ts).
use mark_solutions.Base.{
  ℕ, ◌+◌, Option, none, some, List, map, foldl, ◌==◌, filter, find, reverse, Text, text,
}
use mark_solutions.Store.{OrderStatus, Order, OrderLine, ProductCard, Db}
use mark_solutions.Cards.{has_card_id, get_attribute, string_of}
use mark_solutions.Orders.{line_of}

pub record ListedOrder : Type 0 where
  pub id : ℕ
  pub number : ℕ
  pub status : OrderStatus
  pub gtin : Text
  pub card_name : Text
  pub quantity : ℕ
  pub total_price : ℕ
  pub updated_at : ℕ

-- The name of an order's card; an absent card has none.
abbrev pub card_name_of : Option ProductCard → Text
card_name_of none = text ""
card_name_of (some c) = string_of (get_attribute (text "name") c.attributes)

abbrev pub sum_of : (OrderLine → ℕ) → List OrderLine → ℕ
sum_of f = foldl (λ n l. n + f l) 0

abbrev pub listed_order : Db → Order → ListedOrder
listed_order db o =
    let lines = filter (line_of o.id) db.lines in
    record {
      id = o.id;
      number = o.number;
      status = o.status;
      gtin = o.gtin;
      card_name = card_name_of (find (has_card_id o.card_id) db.cards);
      quantity = sum_of (λ l. l.quantity) lines;
      total_price = sum_of (λ l. l.total_price) lines;
      updated_at = o.updated_at;
    }

-- The newest first; the time of creation is the place in the table.
unfoldable pub list : ℕ → Db → List ListedOrder
list tenant db = map (listed_order db) (reverse (filter (λ o. o.tenant_id == tenant) db.orders))

-- ===== src/Shipping.antt =====
-- apps/boutique/sure/shippingservice/main.c: quotes and tracking ids.
pub mod Costs
mod Tests
use Prim.Native.String.{String, ◌++◌}
use sure.Prelude.{ℕ, zero, suc, ◌+◌, ◌*◌, ◌/◌, ◌%◌, ◌^◌, Bool, if◌then◌else◌, List, get_or}
use sure.Prelude.Int.{ℤ, pos, ◌+ℤ◌, eqz, to_i32}
use sure.Money.{Money}
use sure.Cart.{CartItem, zero_item}
use sure.Payment.{default_uuid}

-- `struct _address`
pub record Address : Type 0 where
  pub street_address : String
  pub city : String
  pub state : String
  pub country : String
  pub zip_code : ℤ

-- `struct _getQuoteRR`; the number of items is not negative.
pub record GetQuoteRr : Type 0 where
  pub address : Address
  pub num_items : ℕ
  pub items : List CartItem
  pub conversion_flag : ℤ
  pub cost_usd : Money

-- `struct _shipOrderRR`
pub record ShipOrderRr : Type 0 where
  pub address : Address
  pub items : List CartItem
  pub tracking_id : String

pub record Quote : Type 0 where
  pub dollars : ℕ
  pub cents : ℕ

-- `CreateQuoteFromFloat`. The amount is in hundredths: `modf` splits off the dollars, and `trunc` of a
-- hundred times the rest is exact at the two amounts of the service, 0 and 8.99.
abbrev pub create_quote_from_float : ℕ → Quote
create_quote_from_float hundredths = record { dollars = hundredths / 100; cents = hundredths % 100 }

-- `quoteByCountFloat`
abbrev pub quote_by_count_float : ℤ → ℕ
quote_by_count_float count = if eqz count then 0 else 899

-- `CreateQuoteFromCount`
abbrev pub create_quote_from_count : ℤ → Quote
create_quote_from_count count = create_quote_from_float (quote_by_count_float count)

-- `count += in->Items[i].Quantity`, with the rounds that are left.
unfoldable pub count_items : ℕ → ℕ → List CartItem → ℤ → ℤ
count_items zero i items count = count
count_items (suc left) i items count =
    count_items left (i + 1) items (to_i32 (count +ℤ (get_or items i zero_item).quantity))

-- `GetQuote`
unfoldable pub get_quote : GetQuoteRr → GetQuoteRr
unfolding count_items
get_quote rr =
    let quote = create_quote_from_count (count_items rr.num_items 0 rr.items (pos 0)) in
    record rr {
      cost_usd = record {
        currency_code = "USD";
        units = pos quote.dollars;
        nanos = to_i32 (pos (quote.cents * 10000000 % 2 ^ 32));
      };
    }

-- `baseAddress`, which `CreateTrackingId` does not look at.
abbrev pub base_address : Address → String
base_address a = (((("" ++ a.street_address) ++ ", ") ++ a.city) ++ ", ") ++ a.state

-- `CreateTrackingId`
abbrev pub create_tracking_id : String → String
create_tracking_id salt = default_uuid

-- `ShipOrder`
unfoldable pub ship_order : ShipOrderRr → ShipOrderRr
ship_order rr = record rr { tracking_id = create_tracking_id (base_address rr.address) }

-- The commands that `handle_request` tells apart, with what `rpc->rr` holds.
pub data ShippingRequest : Type 0 where
  shipping_get_quote : GetQuoteRr → ShippingRequest
  shipping_ship_order : ShipOrderRr → ShippingRequest
  unknown : ShippingRequest

-- `handle_request`
abbrev pub handle_request : ShippingRequest → ShippingRequest
handle_request (shipping_get_quote rr) = shipping_get_quote (get_quote rr)
handle_request (shipping_ship_order rr) = shipping_ship_order (ship_order rr)
handle_request unknown = unknown

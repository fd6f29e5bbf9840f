-- ===== src/Checkout/Rpc.antt =====
-- apps/boutique/sure/checkoutservice/main.c: what stands in the buffers of its calls.
use Prim.Native.String.{String}
use sure.Cart as CartService
use sure.Cart.{GetCartRr, CartRequest}
use sure.Catalog as CatalogService
use sure.Catalog.{GetProductRr, CatalogRequest}
use sure.Currency as CurrencyService
use sure.Currency.{CurrencyConversionRr, CurrencyRequest}
use sure.Shipping as ShippingService
use sure.Shipping.{GetQuoteRr, ShipOrderRr, ShippingRequest}
use sure.Payment.{ChargeRr}
use sure.Checkout.Services.{OrderResult}

-- `struct _sendOrderConfirmationRR`
pub record SendOrderConfirmationRr : Type 0 where
  pub email : String
  pub order : OrderResult

-- `struct rpc`: the command and what `rr` holds, by the service that the command is one of.
pub data Rpc : Type 0 where
  to_cart : CartRequest → Rpc
  to_catalog : CatalogRequest → Rpc
  to_currency : CurrencyRequest → Rpc
  to_shipping : ShippingRequest → Rpc
  to_payment : ChargeRr → Rpc
  to_email : SendOrderConfirmationRr → Rpc

-- The services, by their ids.
pub data Service : Type 0 where
  productcatalog_service cart_service shipping_service currency_service : Service
  payment_service email_service : Service

-- How the bytes of a buffer read that some other command has left there.
pub record Stale : Type 0 where
  pub get_cart : Rpc → GetCartRr
  pub get_product : Rpc → GetProductRr
  pub conversion : Rpc → CurrencyConversionRr
  pub quote : Rpc → GetQuoteRr
  pub shipment : Rpc → ShipOrderRr
  pub payment : Rpc → ChargeRr
  pub confirmation : Rpc → SendOrderConfirmationRr

-- The casts of `rpc->rr`.
module _ (stale : Stale) where
  abbrev pub as_get_cart : Rpc → GetCartRr
  as_get_cart (to_cart (CartService.cart_get_cart rr)) = rr
  as_get_cart b = stale.get_cart b

  abbrev pub as_get_product : Rpc → GetProductRr
  as_get_product (to_catalog (CatalogService.productcatalog_get_product rr)) = rr
  as_get_product b = stale.get_product b

  abbrev pub as_conversion : Rpc → CurrencyConversionRr
  as_conversion (to_currency (CurrencyService.currency_convert rr)) = rr
  as_conversion b = stale.conversion b

  abbrev pub as_quote : Rpc → GetQuoteRr
  as_quote (to_shipping (ShippingService.shipping_get_quote rr)) = rr
  as_quote b = stale.quote b

  abbrev pub as_shipment : Rpc → ShipOrderRr
  as_shipment (to_shipping (ShippingService.shipping_ship_order rr)) = rr
  as_shipment b = stale.shipment b

  abbrev pub as_payment : Rpc → ChargeRr
  as_payment (to_payment rr) = rr
  as_payment b = stale.payment b

  abbrev pub as_confirmation : Rpc → SendOrderConfirmationRr
  as_confirmation (to_email rr) = rr
  as_confirmation b = stale.confirmation b

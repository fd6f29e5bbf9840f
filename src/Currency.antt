-- ===== src/Currency.antt =====
-- apps/boutique/sure/currencyservice/main.c: the rates, and how an amount is converted.
pub mod Floating
pub mod Whole
pub mod Carried
pub mod Rates
mod Tests
use Prim.Native.String.{String}
use sure.Prelude.{ℕ, zero, suc, ◌+◌, ◌^◌, List, [], ◌∷◌, set, Option, none, some}
use sure.Prelude.Int.{ℤ, pos, pos_part, ◌+ℤ◌, rem_ℤ, to_i32}
use sure.Money.{Money}
use sure.Cart.CMap.{CMap}
use sure.Currency.Floating.{Doubles}
use sure.Service.Process.{Exec, returns, exits}

-- `currencies`
abbrev pub currencies : List String
currencies = "EUR" ∷ "USD" ∷ "JPY" ∷ "CAD" ∷ []

-- `struct _getSupportedCurrenciesResponse`
pub record GetSupportedCurrenciesResponse : Type 0 where
  pub num_currencies : ℕ
  pub currency_codes : List String

-- `struct _currencyConversionRR`
pub record CurrencyConversionRr : Type 0 where
  pub from : Money
  pub to_code : String
  pub res : Money

-- The loop of `GetSupportedCurrencies`, from a place on.
unfoldable pub list_codes :
    List String → ℕ → GetSupportedCurrenciesResponse → GetSupportedCurrenciesResponse
list_codes [] i res = res
list_codes (code ∷ codes) i res = list_codes codes (i + 1) (record {
  num_currencies = res.num_currencies + 1;
  currency_codes = set res.currency_codes i code;
})

-- `GetSupportedCurrencies`
unfoldable pub get_supported_currencies :
    GetSupportedCurrenciesResponse → GetSupportedCurrenciesResponse
unfolding list_codes
get_supported_currencies res = list_codes currencies 0 (record res { num_currencies = 0 })

-- The requests that `handle_request` tells apart, with what `rpc->rr` holds.
pub data CurrencyRequest : Type 0 where
  currency_get_supported_currencies : GetSupportedCurrenciesResponse → CurrencyRequest
  currency_convert : CurrencyConversionRr → CurrencyRequest
  unknown : CurrencyRequest

module _ (d : Doubles) where
  open d use {D, literal, of_int, divide, times, plus, floor, round, as_i32, as_i64}

  -- `conversion_rate`
  abbrev pub conversion_rate : List D
  conversion_rate = literal 10 1 ∷ literal 11305 4 ∷ literal 12640 2 ∷ literal 15128 4 ∷ []

  -- `Carry`
  unfoldable pub carry : Money → Money
  carry amount =
      let fraction_size = literal (10 ^ 9) 0 in
      let nanos =
        to_i32 (amount.nanos +ℤ as_i32 (times (of_int (rem_ℤ amount.units 1)) fraction_size)) in
      record amount {
        units =
            as_i64
              (plus (floor (of_int amount.units)) (floor (divide (of_int nanos) fraction_size)));
        nanos = rem_ℤ nanos (pos_part (as_i32 fraction_size));
      }

  -- Both fields divided by a rate.
  abbrev pub divided : Money → D → Money
  divided m rate = record m {
    units = as_i64 (divide (of_int m.units) rate);
    nanos = as_i32 (divide (of_int m.nanos) rate);
  }

  module _ (m : CMap D) where
    open m use {Store, empty, insert, find}

    -- The loop of `getCurrencyData`.
    abbrev pub insert_rates : List String → List D → Store → Store
    insert_rates [] rates s = s
    insert_rates (code ∷ codes) [] s = s
    insert_rates (code ∷ codes) (rate ∷ rates) s = insert_rates codes rates (insert code rate s)

    -- `getCurrencyData`, into the new map of `main`
    unfoldable pub get_currency_data : Store
    get_currency_data = insert_rates currencies conversion_rate empty

    -- `Convert`. Without a rate for one of the currencies the service exits.
    unfoldable pub convert : CurrencyConversionRr → Store → Exec CurrencyConversionRr
    unfolding carry
    convert rr s = elim (find rr.from.currency_code s) [
      | none ↦ exits
      | some rate ↦
          let carried =
            carry (divided (record rr.res { units = rr.from.units; nanos = rr.from.nanos }) rate) in
          let euros = record carried { nanos = as_i32 (round (of_int carried.nanos)) } in
          elim (find rr.to_code s) [
            | none ↦ exits
            | some rate' ↦
                let there = carry (divided euros rate') in
                returns (record rr {
                  res = record {
                    currency_code = rr.to_code;
                    units = as_i64 (floor (of_int there.units));
                    nanos = as_i32 (floor (of_int there.nanos));
                  };
                })
          ]
    ]

    -- `handle_request`
    unfoldable pub handle_request : CurrencyRequest → Store → Exec CurrencyRequest
    unfolding get_supported_currencies convert
    handle_request (currency_get_supported_currencies res) s =
        returns (currency_get_supported_currencies (get_supported_currencies res))
    handle_request (currency_convert rr) s = elim (convert rr s) [
      | exits ↦ exits
      | returns rr' ↦ returns (currency_convert rr')
    ]
    handle_request unknown s = returns unknown

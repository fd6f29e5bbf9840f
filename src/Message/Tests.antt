-- ===== src/Message/Tests.antt =====
-- Sizes as a compiler reports them, and the theorems at concrete commands.
use sure.Prelude.{◌≡◌, refl, some}
use sure.Message.{command_of}
use sure.Message.Layout.{sizeof}
use sure.Message.Structs
use sure.Message.Size.{get_rpc_size, body_size}

some_sizes :
    (sizeof Structs.cart_item ≡ 16)
    × (sizeof Structs.money ≡ 24)
    × (sizeof Structs.product ≡ 224)
    × (sizeof Structs.list_products_response ≡ 2024)
    × (sizeof Structs.ad_rr ≡ 3008)
unfolding sizeof
some_sizes = (refl, refl, refl, refl, refl)

add_item_size : get_rpc_size 0 ≡ some 76
unfolding get_rpc_size command_of body_size sizeof
add_item_size = refl

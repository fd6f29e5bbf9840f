-- ===== src/Service/Tests.antt =====
-- Runs of the code of apps/boutique/sure/common/service/service.h, and the theorems at concrete streams.
use sure.Prelude.{
  ℕ, zero, suc, ◌+◌, ◌≡◌, refl, inl, true, false, Option, none, some, List, [], ◌∷◌, ◌++◌, map,
  replicate, arith,
}
use sure.Message.{command_of}
use sure.Message.Layout.{sizeof}
use sure.Message.Size.{get_rpc_size, body_size}
use sure.Service.Unimsg.{Desc, Unimsg, ok}
use sure.Service.Process.{
  PendingBuffer, process_desc, command_at, first_part, begin_message, next_part, needed,
  finish_part, move_to_new,
}
use sure.Service.Process.Framing.{Accounts}
use sure.Service.Process.Framing.Whole.{process_desc-Accounts}
use sure.Service.Loop.{Reaction, proceeds, LoopEnd, finished, unfinished, desc_loop}
use sure.Service.Loop.Stream.{AreLive, Delivers, logged, stream, desc_loop-Delivers}
use sure.Service.Sync.{then_serve, start_service, service_rounds}
use sure.Service.Sync.Table.{StaysServer, run_service-IsServer}
use sure.Service.Loop.Split.{EndsUnlessStuck, desc_loop-ends, desc_loop-split_header}

abbrev fresh_buffer : Desc
fresh_buffer = record { addr = true; off = 64; bytes = [] }

-- A pool with a number of free buffers, and sockets that take all and give nothing.
abbrev pool_get : ℕ → Option (Desc × ℕ)
pool_get zero = none
pool_get (suc n) = some (fresh_buffer, n)

abbrev pool : Unimsg
pool = record {
  World = ℕ;
  buffer_size = 4096;
  buffer_get = pool_get;
  buffer_put = λ ds w. w + 1;
  recv = λ s n w. (ok, [], w);
  send = λ s d w. (ok, w);
  close = λ s w. w;
  max_descs_bulk = 64;
  max_nsocks = 4;
  poll = λ socks w. (ok, map (λ _. true) socks, w);
  accept = λ s w. (ok, 100 + w, w);
  socket = λ w. (ok, w, w);
  bind = λ s port w. (ok, w);
  listen = λ s w. (ok, w);
  connect = λ s addr port w. (ok, w);
}

pool_get-addr : (w w' : ℕ) (d : Desc) → pool_get w ≡ some (d, w') → d.addr ≡ true
pool_get-addr zero w' d e = cc
pool_get-addr (suc n) w' d e = ground arith

abbrev idle : PendingBuffer
idle = record { desc = record { addr = false; off = 0; bytes = [] }; expected_sz = 0 }

-- A message of the command CART_EMPTY_CART: a header and fifty bytes.
abbrev header : List ℕ
header = 7 ∷ 0 ∷ 0 ∷ 0 ∷ 2 ∷ 0 ∷ 0 ∷ 0 ∷ []

abbrev desc_of : List ℕ → Desc
desc_of bs = record { addr = true; off = 64; bytes = bs }

abbrev whole : Desc
whole = desc_of (header ++ replicate 50 1)

abbrev first_half : Desc
first_half = desc_of (header ++ replicate 20 1)

abbrev second_half : Desc
second_half = desc_of (replicate 30 1)

abbrev short_part : Desc
short_part = desc_of (7 ∷ 0 ∷ 0 ∷ [])

abbrev long_part : Desc
long_part = desc_of (0 ∷ 2 ∷ 0 ∷ 0 ∷ 0 ∷ replicate 50 1)

-- Counts the messages.
abbrev count : Desc → ℕ × ℕ → Reaction (ℕ × ℕ)
count d (w, n) = proceeds (w, n + 1)

process_desc-Accounts_example : Accounts pool idle whole (process_desc pool idle whole 3)
process_desc-Accounts_example =
    process_desc-Accounts pool pool_get-addr idle whole 3 (inl (refl, refl, refl)) refl
      (omega arith)

abbrev halves : List Desc
halves = first_half ∷ second_half ∷ []

halves-AreLive : AreLive halves
halves-AreLive = (refl, omega arith, (refl, omega arith, tt))

desc_loop-Delivers_example :
    Delivers pool (stream halves) (desc_loop pool (logged pool count) 100 halves idle (3, ([], 0)))
desc_loop-Delivers_example =
    desc_loop-Delivers pool count pool_get-addr 100 halves idle 3 0 halves-AreLive
      (inl (refl, refl, refl))

desc_loop-ends_example : EndsUnlessStuck pool count (desc_loop pool count 100 halves idle (3, 0))
desc_loop-ends_example =
    desc_loop-ends pool count pool_get-addr 100 halves idle (3, 0) halves-AreLive
      (inl (refl, refl, refl)) (omega arith)

desc_loop-split_header_example :
    (p' : PendingBuffer) × (b' : Desc) × (desc_loop pool count 1000
        (short_part ∷ long_part ∷ [])
        idle
        (3, 0)
      ≡ unfinished (b' ∷ []) p' (3, 0))
    × (p'.desc.bytes ≡ header)
    × (b'.bytes ≡ replicate 50 1)
desc_loop-split_header_example =
    desc_loop-split_header pool count 998 short_part long_part [] idle (3, 0) (refl, refl, refl)
      refl (omega arith) (omega arith) (omega arith)

-- Two messages in one descriptor, the second of which is cut: one is counted, the other pends.
abbrev pending_after : LoopEnd (ℕ × ℕ) → List ℕ
pending_after (finished p _) = p.desc.bytes
pending_after _ = []

cut_message :
    pending_after
      (desc_loop pool count 10 (desc_of (whole.bytes ++ header ++ 5 ∷ []) ∷ []) idle (3, 0))
    ≡ header ++ 5 ∷ []
unfolding desc_loop process_desc first_part begin_message next_part needed finish_part move_to_new
    command_at get_rpc_size command_of body_size sizeof
cut_message = refl

abbrev echo : Desc → ℕ → Desc × ℕ
echo d n = (d, n + 1)

run_service-IsServer_example :
    StaysServer pool echo 9
      (then_serve pool echo (start_service pool echo 5001 (9, 0)) (service_rounds pool echo 100 20))
run_service-IsServer_example = run_service-IsServer pool echo 5001 100 20 (9, 0) (omega arith)

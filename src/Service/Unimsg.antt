-- ===== src/Service/Unimsg.antt =====
-- The library unimsg (`unimsg/net.h`), which the services call and do not contain: its descriptors,
-- return codes and calls. Sockets are numbers.
use sure.Prelude.{ℕ, Bool, List, length, Option}

-- `struct unimsg_shm_desc`: `addr` tells whether the address is not null, and `bytes` are the `size`
-- bytes that stand from the address on.
pub record Desc : Type 0 where
  pub addr : Bool
  pub off : ℕ
  pub bytes : List ℕ

abbrev pub size : Desc → ℕ
size d = length d.bytes

-- What a call returns: 0, -ECONNRESET, or another error.
pub data Rc : Type 0 where
  ok econnreset error : Rc

pub record Unimsg : Type 1 where
  -- All that the library keeps: buffers, sockets and what other machines do.
  pub World : Type 0
  -- UNIMSG_BUFFER_SIZE
  pub buffer_size : ℕ
  -- `unimsg_buffer_get(&desc, 1)`, which fails if no buffer is free
  pub buffer_get : World → Option (Desc × World)
  -- `unimsg_buffer_put(descs, ndescs)`
  pub buffer_put : List Desc → World → World
  -- `unimsg_recv(s, descs, &ndescs, 0)` with room for some descriptors
  pub recv : ℕ → ℕ → World → Rc × List Desc × World
  -- `unimsg_send(s, &desc, 1, 0)`
  pub send : ℕ → Desc → World → Rc × World
  -- `unimsg_close(s)`
  pub close : ℕ → World → World
  -- UNIMSG_MAX_DESCS_BULK and UNIMSG_MAX_NSOCKS
  pub max_descs_bulk : ℕ
  pub max_nsocks : ℕ
  -- `unimsg_poll(socks, nsocks, ready)`: one `ready` for each socket
  pub poll : List ℕ → World → Rc × List Bool × World
  -- `unimsg_accept(s, &new, 1)`
  pub accept : ℕ → World → Rc × ℕ × World
  -- `unimsg_socket(&s)`, `unimsg_bind(s, port)`, `unimsg_listen(s)`, `unimsg_connect(s, addr, port)`
  pub socket : World → Rc × ℕ × World
  pub bind : ℕ → ℕ → World → Rc × World
  pub listen : ℕ → World → Rc × World
  pub connect : ℕ → ℕ → ℕ → World → Rc × World

-- ===== src/Service/Loop.antt =====
-- The loop over the received descriptors, which `handle_socket` (common/service/service_sync.h) and
-- the handlers of common/service/service_async.h share, below apps/boutique/sure.
pub mod Rounds
pub mod Stream
pub mod Split
pub mod Invariant
use sure.Prelude.{
  ℕ, zero, suc, ◌+◌, Bool, true, false, List, [], ◌∷◌, ◌++◌, length, ◌==◌, if◌then◌else◌,
}
use sure.Service.Unimsg.{Desc, size, Unimsg}
use sure.Service.Process.{Exec, returns, exits, PendingBuffer, process_desc}

-- What the code does with a complete message: it goes on, it leaves the loop because the connection is
-- closed, with what it left in the descriptor, which is that of the pending buffer, or it calls `exit(1)`.
pub data Reaction {ℓ} (W : Type ℓ) : Type ℓ where
  proceeds : W → Reaction W
  closes : Desc → W → Reaction W
  aborts : Reaction W

-- How the loop ends, with the new pending buffer. `unfinished` is a loop that still runs: it has the
-- descriptors from the current one on.
pub data LoopEnd {ℓ} (W : Type ℓ) : Type ℓ where
  finished : PendingBuffer → W → LoopEnd W
  closed : PendingBuffer → W → LoopEnd W
  aborted : LoopEnd W
  unfinished : List Desc → PendingBuffer → W → LoopEnd W

-- `pending->desc.addr = 0; pending->desc.size = 0; pending->expected_sz = 0;`
abbrev pub cleared : PendingBuffer → PendingBuffer
cleared p = record { desc = record p.desc { addr = false; bytes = [] }; expected_sz = 0 }

-- `if (descs[current].size == 0) current++;`
abbrev pub advance : Desc → List Desc → List Desc
advance d ds = if size d == 0 then ds else d ∷ ds

module _ (u : Unimsg) {S : Type 0} (on_message : Desc → u.World × S → Reaction (u.World × S)) where
  -- `while (current < ndescs)`: the list has the descriptors from `current` on, and `fuel` bounds the
  -- rounds. The state `S` is what the code keeps beside the library's.
  unfoldable pub desc_loop : ℕ → List Desc → PendingBuffer → u.World × S → LoopEnd (u.World × S)
  desc_loop zero ds p ws = unfinished ds p ws
  desc_loop (suc fuel) [] p ws = finished p ws
  desc_loop (suc fuel) (d ∷ ds) p (w, s) = elim (process_desc u p d w) [
    | exits ↦ aborted
    | returns (false, p', d', w') ↦ desc_loop fuel (advance d' ds) p' (w', s)
    | returns (true, p', d', w') ↦ elim (on_message p'.desc (w', s)) [
      | proceeds ws' ↦ desc_loop fuel (advance d' ds) (cleared p') ws'
      | closes left ws' ↦ closed (record p' { desc = left }) ws'
      | aborts ↦ aborted
    ]
  ]

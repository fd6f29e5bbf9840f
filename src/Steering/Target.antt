-- ===== src/Steering/Target.antt =====
-- apps/ric/sure/ts/ts_xapp.cpp: which cell a user is handed over to.
use sure.Prelude.{
  zero, suc, if◌then◌else◌, Bool, Option, none, ℕ, Bool, true, if◌then◌else◌, List, [], ◌∷◌, some,
}
use sure.Prelude.Int.{ℤ, pos, to_i32}
use sure.Prelude.Bytes.{same_bytes}
use sure.Frontend.{until_nul}
use sure.Steering.{
  Event, key, uint, other, Cells, set_cell, PredictionHandler, new_handler, read_prediction,
}

-- What is predicted of a cell: the throughput of downloads, and that of uploads.
pub record Predicted : Type 0 where
  pub name : List ℕ
  pub down : ℕ
  pub up : ℕ

-- What the parser calls for {"CID1": [20, 5], ...} behind the brace.
abbrev cells_events : List Predicted → List Event → List Event
cells_events [] rest = rest
cells_events (c ∷ cs) rest =
    key c.name ∷ other ∷ uint c.down ∷ uint c.up ∷ other ∷ cells_events cs rest

abbrev others : ℕ → List Event
others zero = []
others (suc n) = other ∷ others n

-- What the parser calls for {"Train passenger": {"CID1": [20, 5], ...}}, within some more brackets.
abbrev prediction_events : ℕ → List ℕ → List Predicted → ℕ → List Event
prediction_events zero ue cells closing = key ue ∷ other ∷ cells_events cells (others closing)
prediction_events (suc opening) ue cells closing =
    other ∷ prediction_events opening ue cells closing

abbrev pub prediction : ℕ → List ℕ → List Predicted → ℕ → PredictionHandler
prediction opening ue cells closing =
    read_prediction (prediction_events opening ue cells closing) new_handler

-- The last prediction of a download for a cell.
abbrev later_or : Option ℤ → Option ℤ → Option ℤ
later_or none t = t
later_or (some t') t = some t'

abbrev pub download : List Predicted → List ℕ → Option ℤ
download [] id = none
download (c ∷ cs) id =
    later_or (download cs id)
      (if same_bytes id (until_nul c.name) then some (to_i32 (pos c.down)) else none)

-- The map behind the predictions of some cells.
abbrev downs : List Predicted → Cells → Cells
downs [] m = m
downs (c ∷ cs) m = downs cs (set_cell (until_nul c.name) (to_i32 (pos c.down)) m)

-- A handler that knows the user, between two cells.
abbrev between : Cells → Cells → List ℕ → List ℕ → List ℕ → PredictionHandler
between down up ue curr serving = record {
  cell_pred_down = down;
  cell_pred_up = up;
  ue_id = ue;
  ue_id_found = true;
  curr_key = curr;
  serving_cell_id = serving;
  down_val = true;
}

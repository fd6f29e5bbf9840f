-- ===== src/Steering.antt =====
-- apps/ric/sure/ts/ts_xapp.cpp: the traffic steering application. It learns which users have a bad
-- connection, has the throughput of the cells around them predicted, and sends the control application
-- (apps/ric/sure/rc) a request to hand a user over. rapidjson is not in the repository: what its parser
-- and its writer give is a parameter.
pub mod Post
pub mod Decision
pub mod Target
pub mod Lines
pub mod Echo
pub mod Failures
pub mod Rounds
mod Tests
use sure.Prelude.{
  ℕ, zero, suc, ◌+◌, Bool, true, false, ◌==◌, if◌then◌else◌, List, [], ◌∷◌, ◌++◌, Option, none,
  some,
}
use sure.Prelude.Int.{ℤ, pos, ltb_ℤ, to_i32}
use sure.Prelude.Bytes.{same_bytes, bytes_of}
use sure.Frontend.{until_nul}

-- What `Reader.Parse` calls of a handler. For all but these the handlers return true.
pub data Event : Type 0 where
  key string : List ℕ → Event
  uint : ℕ → Event
  other : Event

-- `unordered_map<string, int>`, of which the order is not known.
abbrev pub Cells : Type 0
Cells = List (List ℕ × ℤ)

abbrev pub find_cell : List ℕ → Cells → Option ℤ
find_cell id [] = none
find_cell id ((id', t) ∷ cells) =
    let later = find_cell id cells in if same_bytes id id' then some t else later

abbrev pub set_cell : List ℕ → ℤ → Cells → Cells
set_cell id t [] = (id, t) ∷ []
set_cell id t ((id', t') ∷ cells) =
    let later = set_cell id t cells in
    if same_bytes id id' then (id', t) ∷ cells else (id', t') ∷ later

-- `PredictionHandler`; its `curr_value` is not used.
pub record PredictionHandler : Type 0 where
  pub cell_pred_down : Cells
  pub cell_pred_up : Cells
  pub ue_id : List ℕ
  pub ue_id_found : Bool
  pub curr_key : List ℕ
  pub serving_cell_id : List ℕ
  pub down_val : Bool

abbrev pub new_handler : PredictionHandler
new_handler = record {
  cell_pred_down = [];
  cell_pred_up = [];
  ue_id = [];
  ue_id_found = false;
  curr_key = [];
  serving_cell_id = [];
  down_val = true;
}

-- `serving_cell_id.empty()`
abbrev pub first_of : List ℕ → List ℕ → List ℕ
first_of [] curr_key = curr_key
first_of (x ∷ xs) curr_key = x ∷ xs

-- `PredictionHandler::Uint`
abbrev pub on_uint : ℕ → PredictionHandler → PredictionHandler
on_uint n h =
    let serving = first_of h.serving_cell_id h.curr_key in
    if h.down_val
    then record h {
      serving_cell_id = serving;
      cell_pred_down = set_cell h.curr_key (to_i32 (pos n)) h.cell_pred_down;
      down_val = false;
    }
    else record h {
      serving_cell_id = serving;
      cell_pred_up = set_cell h.curr_key (to_i32 (pos n)) h.cell_pred_up;
      down_val = true;
    }

-- `PredictionHandler::Key`
abbrev pub on_key : List ℕ → PredictionHandler → PredictionHandler
on_key str h =
    if h.ue_id_found
    then record h { curr_key = until_nul str }
    else record h { ue_id = until_nul str; ue_id_found = true }

abbrev pub on_event : Event → PredictionHandler → PredictionHandler
on_event (key str) h = on_key str h
on_event (string str) h = h
on_event (uint n) h = on_uint n h
on_event other h = h

-- `reader.Parse(ss, handler)`
unfoldable pub read_prediction : List Event → PredictionHandler → PredictionHandler
read_prediction [] h = h
read_prediction (e ∷ es) h = read_prediction es (on_event e h)

-- `AnomalyHandler`: what is read behind each key "ue-id".
unfoldable pub read_anomalies : List Event → List ℕ → List (List ℕ)
read_anomalies [] curr_key = []
read_anomalies (key str ∷ es) curr_key = read_anomalies es (until_nul str)
read_anomalies (string str ∷ es) curr_key =
    let ues = read_anomalies es curr_key in
    if same_bytes curr_key (bytes_of "ue-id") then until_nul str ∷ ues else ues
read_anomalies (uint n ∷ es) curr_key = read_anomalies es curr_key
read_anomalies (other ∷ es) curr_key = read_anomalies es curr_key

-- The loop for the highest throughput, with it and its cell so far.
unfoldable pub highest : Cells → ℤ → List ℕ → ℤ × List ℕ
highest [] t id = (t, id)
highest ((id', t') ∷ cells) t id =
    let (new_t, new_id) = if ltb_ℤ t t' then (t', id') else (t, id) in highest cells new_t new_id

-- The decision of `prediction_callback`: from which cell to which, or nothing where the code reads behind
-- the end of the map. `iterate` gives the cells of a map in its order, and `exceeds` is the comparison
-- of floats; both branches behind it are the same.
unfoldable pub decide :
    (Cells → Cells) → (ℤ → ℤ → Bool) → PredictionHandler → Option (List ℕ × List ℕ)
unfolding highest
decide iterate exceeds h =
    let (highest_throughput, id) = highest (iterate h.cell_pred_down) (pos 0) [] in
    elim (find_cell h.serving_cell_id h.cell_pred_down) [
      | none ↦ none
      | some serving_cell_throughput ↦
          if exceeds highest_throughput serving_cell_throughput
          then some (h.serving_cell_id, id)
          else some (h.serving_cell_id, id)
    ]

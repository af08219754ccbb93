-- ===== src/Messages/Samples.antt =====
-- A world for the tests of the message handler (cmd/service/message_handler.go): it counts down the
-- failures of the repository, and keeps what was saved and sent.
use order_flow.Prelude.{
  ◌≡◌, refl, arith, ℕ, zero, suc, ◌-◌, true, Option, none, some, List, [], ◌∷◌, ℤ, pos, leb_ℤ,
  ltb_ℤ, ltb, if◌then◌else◌, String,
}
use order_flow.Samples.{sample_order}
use order_flow.Model.{Order}
use order_flow.Errors.{GoError, str, plain}
use order_flow.Floats.{Floats}
use order_flow.Config.{RetryConfig}
use order_flow.Cache.{new_order_cache}
use order_flow.OrderValidator.{accepted}
use order_flow.Dlq.{Bytes, DlqService, Result, failed, succeeded, service}
use order_flow.Repository.{
  Insertion, insert_order, insert_delivery, insert_payment, insert_item, save_order,
}
use order_flow.Database.{Server, CommitLaws}
use order_flow.Repository.Redelivery.{Tables, insert, InsertLaws}
use order_flow.Repository.Samples.{execute, executed, empty}
use order_flow.Messages.Stored.{Connected}
use order_flow.Messages.{Services, App}

pub record World : Type 0 where
  pub failures : ℕ
  pub saved : List String
  pub topic : List Bytes

abbrev pub down : GoError
down = plain (str "database is down" ∷ [])

abbrev pub save : Order → World → Option GoError × World
save o w =
    if ltb 0 w.failures
    then (some down, record w { failures = w.failures - 1 })
    else (none, record w { saved = o.order_uid ∷ w.saved })

-- The message [1] is the order, and all others are no JSON.
abbrev pub decode : Bytes → Result Order
decode [] = failed (plain (str "no JSON" ∷ []))
decode (zero ∷ bytes) = failed (plain (str "no JSON" ∷ []))
decode (suc n ∷ bytes) = succeeded (sample_order "order-a")

abbrev pub services : Services World
services = record {
  unmarshal = decode;
  check = λ o. accepted;
  save_order = save;
  now = λ w. 40;
  marshal = λ m. succeeded m.original_message;
  write_message = λ bytes w. (none, record w { topic = bytes ∷ w.topic });
}

-- Whole numbers in the place of floats.
abbrev pub whole : Floats
whole = record {
  Float = ℤ;
  of_int = λ n. n;
  to_int = λ x. x;
  add = λ x y. x;
  sub = λ x y. x;
  mul = λ x y. x;
  div = λ x y. x;
  pow = λ x y. x;
  lt = ltb_ℤ;
  le = leb_ℤ;
}

abbrev pub cfg : RetryConfig ℤ
cfg = record {
  max_attempts = pos 3;
  initial_delay = pos 100;
  max_delay = pos 150;
  multiplier = pos 2;
}

abbrev pub queue : DlqService
queue = service (record { enabled = true; topic = "orders-dlq"; max_retries = pos 3 })

abbrev pub app_with : ℕ → App World
app_with n = record {
  cache = new_order_cache (pos 2) (pos 100);
  world = record { failures = n; saved = []; topic = [] };
}

-- A server that refuses each payment while it has a fault.
abbrev pub faulty : ℕ → Insertion → Tables → Option GoError × Tables
faulty zero c t = execute c t
faulty (suc n) (insert_payment uid p) t = (some down, t)
faulty (suc n) (insert_order r) t = execute (insert_order r) t
faulty (suc n) (insert_delivery uid d) t = execute (insert_delivery uid d) t
faulty (suc n) (insert_item uid i) t = execute (insert_item uid i) t

pub faulty-executed :
    (n : ℕ) (c : Insertion) (t : Tables) → (faulty n c t).0 ≡ none → (faulty n c t).1 ≡ insert c t
faulty-executed zero c t ok = executed c t ok
faulty-executed (suc n) (insert_order r) t ok = refl
faulty-executed (suc n) (insert_delivery uid d) t ok = refl
faulty-executed (suc n) (insert_payment uid p) t ok = ground arith
faulty-executed (suc n) (insert_item uid i) t ok = refl

-- The world over a database, with the number of attempts that meet a fault of the server.
pub record StoredWorld : Type 0 where
  pub faults : ℕ
  pub tables : Tables
  pub sent : List Bytes

abbrev pub stored_server : StoredWorld → Server Tables Insertion
stored_server w = record {
  exec = faulty w.faults;
  begin = λ t. none;
  commit = λ t view. (none, view);
}

pub stored_commits : (w : StoredWorld) → CommitLaws (stored_server w)
stored_commits w = record {
  commit_done = λ st view h. refl;
  commit_failed = λ st view e h. ground arith;
}

abbrev pub stored_laws : (w : StoredWorld) → InsertLaws (stored_server w)
stored_laws w = record { tables = λ t. t; inserted = faulty-executed w.faults }

abbrev pub save_stored : Order → StoredWorld → Option GoError × StoredWorld
save_stored o w =
    let (err, t) = save_order (stored_server w) (some o) w.tables in
    (err, record w { tables = t; faults = w.faults - 1 })

abbrev pub stored_services : Services StoredWorld
stored_services = record {
  unmarshal = decode;
  check = λ o. accepted;
  save_order = save_stored;
  now = λ w. 40;
  marshal = λ m. succeeded m.original_message;
  write_message = λ bytes w. (none, record w { sent = bytes ∷ w.sent });
}

-- The first attempt meets a fault, and the second one none.
abbrev pub stored_app : App StoredWorld
stored_app = record {
  cache = new_order_cache (pos 2) (pos 100);
  world = record { faults = 1; tables = empty; sent = [] };
}

abbrev pub connected : Connected stored_services stored_server
connected = record {
  database = λ w. w.tables;
  same_result = λ o w. refl;
  same_state = λ o w. refl;
  queue_apart = λ bytes w. refl;
}

-- ===== src/Service/Tests.antt =====
-- The start of the service (cmd/service/initializer.go) with the default configuration, and its theorem
-- at a concrete input.
use order_flow.Prelude.{◌≡◌, refl, inr, arith, Option, none, some, [], ◌∷◌, ℤ, pos, negsuc}
use order_flow.Samples.{sample_order}
use order_flow.Model.{Order}
use order_flow.Errors.{GoError, Message, plain, str, int}
use order_flow.Http.{set_header, write}
use order_flow.Config.{
  Config, get_env, get_env_as_int, get_env_as_bool, get_env_as_duration, get_env_as_float,
  split_commas,
}
use order_flow.Config.Load.{read_config, database_url}
use order_flow.Cache.{new_order_cache, load_all, load_into, stop}
use order_flow.Cache.Writes.{last_with}
use order_flow.Messages.Samples.{whole}
use order_flow.Api.{ApiServices, serve_http}
use order_flow.Api.Orders.{get_request}
use order_flow.Service.{
  minutes, App, init_cache, init_dlq_service, init_kafka_consumer, init_http_server, new_app, close,
  main, init_failed,
}
use order_flow.Service.Start.{new_app-serves}

program : Unit {0}
unfolding minutes init_cache init_dlq_service init_kafka_consumer init_http_server new_app close
    main new_order_cache load_all load_into stop read_config database_url get_env get_env_as_int
    get_env_as_bool get_env_as_duration get_env_as_float split_commas
program = tt

abbrev cfg : Config ℤ
cfg = read_config whole (λ s. none) (λ s. none) (λ key. "")

-- A time to live of 200 million minutes is a negative one.
wrapped : minutes (pos 200000000) ≡ negsuc 6446744073709551615
unfolding program
wrapped = refl

one_minute_ago : minutes (negsuc 0) ≡ negsuc 59999999999
unfolding program
one_minute_ago = refl

abbrev down : GoError
down = plain (str "connection refused" ∷ [])

abbrev connect : Message → Option GoError
connect url = none

abbrev order_a : Order
order_a = sample_order "order-a"

abbrev app : App ℤ
app = record {
  config = cfg;
  cache = init_cache cfg (inr (order_a ∷ [])) 40;
  dlq_service = init_dlq_service cfg;
  consumer = init_kafka_consumer cfg;
  http_server = init_http_server cfg;
}

not_connected : main (λ url. some down) (inr cfg) (inr []) 40 ≡ init_failed down
unfolding program
not_connected = refl

address : (init_http_server cfg).address ≡ str ":" ∷ int (pos 8082) ∷ []
unfolding program
address = refl

-- An order of the start is served after half an hour.
made : new_app connect cfg (inr (order_a ∷ [])) 40 ≡ inr app
unfolding program
made = refl

abbrev services : ApiServices
services = record {
  get_order_by_uid = none;
  encode_order = λ o. some o.order_uid;
  encode_created = λ uid. some uid;
  encode_health = λ n. some "ok";
  serve_static = λ r. [];
}

minutes_60 : cfg.cache.ttl_minutes ≡ pos 60
unfolding program
minutes_60 = refl

new_app-serves_example :
    (serve_http services 1800000000040 1800000000050 (get_request "order-a") app.cache).1
    ≡ set_header "Content-Type" "application/json" ∷ write "order-a" ∷ []
unfolding last_with
new_app-serves_example =
    new_app-serves connect cfg (order_a ∷ []) app services "order-a" "order-a" order_a 40
      1800000000040 1800000000050 60 made refl minutes_60 (omega arith) refl refl refl

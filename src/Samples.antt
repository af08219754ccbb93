-- ===== src/Samples.antt =====
-- Orders for the tests, in the shape of test_order.json.
use order_flow.Prelude.{String, pos, [], ◌∷◌}
use order_flow.Model.{Order, Item}

abbrev pub sample_item : Item
sample_item = record {
  chrt_id = pos 9934930;
  track_number = "WBILMTESTTRACK";
  price = pos 453;
  rid = "ab4219087a764ae0btest";
  name = "Mascaras";
  sale = pos 30;
  size = "0";
  total_price = pos 317;
  nm_id = pos 2389212;
  brand = "Vivienne Sabo";
  status = pos 202;
}

abbrev pub sample_order : String → Order
sample_order uid = record {
  order_uid = uid;
  track_number = "WBILMTESTTRACK";
  entry = "WBIL";
  delivery = record {
    name = "Test Testov";
    phone = "+9720000000";
    zip = "2639809";
    city = "Kiryat Mozkin";
    address = "Ploshad Mira 15";
    region = "Kraiot";
    email = "test@gmail.com";
  };
  payment = record {
    transaction = uid;
    request_id = "";
    currency = "USD";
    provider = "wbpay";
    amount = pos 1817;
    payment_dt = pos 1637907727;
    bank = "alpha";
    delivery_cost = pos 1500;
    goods_total = pos 317;
    custom_fee = pos 0;
  };
  items = sample_item ∷ [];
  locale = "en";
  internal_signature = "";
  customer_id = "test";
  delivery_service = "meest";
  shard_key = "9";
  sm_id = pos 99;
  date_created = 1000;
  oof_shard = "1";
}

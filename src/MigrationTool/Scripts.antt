-- ===== src/MigrationTool/Scripts.antt =====
-- The migrations of migrations/migrate.go.
use order_flow.Prelude.{pos, none, String, List, [], ◌∷◌}
use order_flow.Migrations.{Migration}

abbrev pub init_up : String
init_up =
    "\n\t\t\t\tCREATE TABLE orders (\n\t\t\t\t\torder_uid VARCHAR PRIMARY KEY,\n\t\t\t\t\ttrack_number VARCHAR,\n\t\t\t\t\tentry VARCHAR,\n\t\t\t\t\tlocale VARCHAR,\n\t\t\t\t\tinternal_signature VARCHAR,\n\t\t\t\t\tcustomer_id VARCHAR,\n\t\t\t\t\tdelivery_service VARCHAR,\n\t\t\t\t\tshardkey VARCHAR,\n\t\t\t\t\tsm_id INT,\n\t\t\t\t\tdate_created TIMESTAMP,\n\t\t\t\t\toof_shard VARCHAR\n\t\t\t\t);\n\n\t\t\t\tCREATE TABLE delivery (\n\t\t\t\t\torder_uid VARCHAR PRIMARY KEY REFERENCES orders(order_uid) ON DELETE CASCADE,\n\t\t\t\t\tname VARCHAR,\n\t\t\t\t\tphone VARCHAR,\n\t\t\t\t\tzip VARCHAR,\n\t\t\t\t\tcity VARCHAR,\n\t\t\t\t\taddress VARCHAR,\n\t\t\t\t\tregion VARCHAR,\n\t\t\t\t\temail VARCHAR\n\t\t\t\t);\n\n\t\t\t\tCREATE TABLE payment (\n\t\t\t\t\ttransaction VARCHAR PRIMARY KEY,\n\t\t\t\t\torder_uid VARCHAR REFERENCES orders(order_uid) ON DELETE CASCADE,\n\t\t\t\t\trequest_id VARCHAR,\n\t\t\t\t\tcurrency VARCHAR,\n\t\t\t\t\tprovider VARCHAR,\n\t\t\t\t\tamount INT,\n\t\t\t\t\tpayment_dt BIGINT,\n\t\t\t\t\tbank VARCHAR,\n\t\t\t\t\tdelivery_cost INT,\n\t\t\t\t\tgoods_total INT,\n\t\t\t\t\tcustom_fee INT\n\t\t\t\t);\n\n\t\t\t\tCREATE TABLE items (\n\t\t\t\t\tid SERIAL PRIMARY KEY,\n\t\t\t\t\torder_uid VARCHAR REFERENCES orders(order_uid) ON DELETE CASCADE,\n\t\t\t\t\tchrt_id INT,\n\t\t\t\t\ttrack_number VARCHAR,\n\t\t\t\t\tprice INT,\n\t\t\t\t\trid VARCHAR,\n\t\t\t\t\tname VARCHAR,\n\t\t\t\t\tsale INT,\n\t\t\t\t\tsize VARCHAR,\n\t\t\t\t\ttotal_price INT,\n\t\t\t\t\tnm_id INT,\n\t\t\t\t\tbrand VARCHAR,\n\t\t\t\t\tstatus INT\n\t\t\t\t);\n\t\t\t"

abbrev init_down : String
init_down =
    "\n\t\t\t\tDROP TABLE IF EXISTS items;\n\t\t\t\tDROP TABLE IF EXISTS payment;\n\t\t\t\tDROP TABLE IF EXISTS delivery;\n\t\t\t\tDROP TABLE IF EXISTS orders;\n\t\t\t"

abbrev pub add_indexes_up : String
add_indexes_up =
    "\n\t\t\t\tCREATE INDEX IF NOT EXISTS idx_orders_customer_id ON orders(customer_id);\n\t\t\t\tCREATE INDEX IF NOT EXISTS idx_orders_date_created ON orders(date_created);\n\t\t\t\tCREATE INDEX IF NOT EXISTS idx_items_order_uid ON items(order_uid);\n\t\t\t\tCREATE INDEX IF NOT EXISTS idx_payment_order_uid ON payment(order_uid);\n\t\t\t"

abbrev add_indexes_down : String
add_indexes_down =
    "\n\t\t\t\tDROP INDEX IF EXISTS idx_orders_customer_id;\n\t\t\t\tDROP INDEX IF EXISTS idx_orders_date_created;\n\t\t\t\tDROP INDEX IF EXISTS idx_items_order_uid;\n\t\t\t\tDROP INDEX IF EXISTS idx_payment_order_uid;\n\t\t\t"

-- `getMigrations`; the time of creation is never set.
unfoldable pub get_migrations : List Migration
get_migrations =
    record {
      version = pos 1;
      name = "001_init";
      up_sql = init_up;
      down_sql = init_down;
      applied_at = none;
    }
    ∷ record {
      version = pos 2;
      name = "002_add_indexes";
      up_sql = add_indexes_up;
      down_sql = add_indexes_down;
      applied_at = none;
    }
    ∷ []

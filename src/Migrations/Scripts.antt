-- ===== src/Migrations/Scripts.antt =====
-- The migrations of LoadMigrationsFromFiles (internal/migrations/migrator.go).
use order_flow.Prelude.{pos, String}
use order_flow.Migrations.{Migrator, add_migration}

abbrev create_orders_table_up : String
create_orders_table_up =
    "\n\t\tCREATE TABLE IF NOT EXISTS orders (\n\t\t\tid SERIAL PRIMARY KEY,\n\t\t\torder_uid VARCHAR(255) UNIQUE NOT NULL,\n\t\t\ttrack_number VARCHAR(255) NOT NULL,\n\t\t\tentry VARCHAR(255) NOT NULL,\n\t\t\tdelivery JSONB NOT NULL,\n\t\t\tpayment JSONB NOT NULL,\n\t\t\titems JSONB NOT NULL,\n\t\t\tlocale VARCHAR(10),\n\t\t\tinternal_signature VARCHAR(255),\n\t\t\tcustomer_id VARCHAR(255),\n\t\t\tdelivery_service VARCHAR(255),\n\t\t\tshardkey VARCHAR(255),\n\t\t\tsm_id INTEGER,\n\t\t\tdate_created TIMESTAMP,\n\t\t\toof_shard VARCHAR(255),\n\t\t\tcreated_at TIMESTAMP DEFAULT CURRENT_TIMESTAMP,\n\t\t\tupdated_at TIMESTAMP DEFAULT CURRENT_TIMESTAMP\n\t\t);\n\t\t\n\t\tCREATE INDEX IF NOT EXISTS idx_orders_order_uid ON orders(order_uid);\n\t\tCREATE INDEX IF NOT EXISTS idx_orders_track_number ON orders(track_number);\n\t"

abbrev create_orders_table_down : String
create_orders_table_down = "\n\t\tDROP TABLE IF EXISTS orders;\n\t"

abbrev create_orders_indexes_up : String
create_orders_indexes_up =
    "\n\t\tCREATE INDEX IF NOT EXISTS idx_orders_date_created ON orders(date_created);\n\t\tCREATE INDEX IF NOT EXISTS idx_orders_customer_id ON orders(customer_id);\n\t"

abbrev create_orders_indexes_down : String
create_orders_indexes_down =
    "\n\t\tDROP INDEX IF EXISTS idx_orders_date_created;\n\t\tDROP INDEX IF EXISTS idx_orders_customer_id;\n\t"

-- `LoadMigrationsFromFiles`; it reads no files and returns nil.
unfoldable pub load_migrations_from_files : Migrator → Migrator
load_migrations_from_files m =
    add_migration
      (add_migration m (pos 1) "create_orders_table" create_orders_table_up
        create_orders_table_down)
      (pos 2) "create_orders_indexes" create_orders_indexes_up create_orders_indexes_down

-- ===== src/Config/Tests.antt =====
-- A configuration of the order service that lacks the part of the payment service, and its addresses.
use rocket_maintenance.Common.{◌≡◌, refl, [], ◌∷◌, none, ok, err, wrap, new_error, true}
use rocket_maintenance.Config.{
  ConfigError, Process, Dotenv, read_dotenv, should_load_dotenv, Host, Postgres,
}
use rocket_maintenance.Config.Load.{OrderConfig, OrderParsers, load_order}
use rocket_maintenance.Config.Laws.{load_order-failure}

abbrev localhost : Host
localhost = record { host = b'd' ∷ b'b' ∷ []; port = 5432 }

abbrev missing : ConfigError
missing = new_error "env: required environment variable is not set"

abbrev database : Postgres
database = record {
  at = localhost;
  user = b'u' ∷ [];
  password = b'p' ∷ [];
  db_name = b'o' ∷ [];
  ssl_mode = b'd' ∷ [];
  migrations_dir = [];
}

abbrev all_set : OrderParsers
all_set = record {
  server = λ _. ok (record {
    at = localhost;
    read_timeout = 1;
    shutdown_timeout = 1;
    db_read_timeout = 1;
    db_write_timeout = 1;
  });
  inventory = λ _. ok localhost;
  payment = λ _. ok localhost;
  logger = λ _. ok (record { level = "info"; as_json = true });
  postgres = λ _. ok database;
  kafka = λ _. ok (record {
    brokers = "kafka:9092" ∷ [];
    order_paid_topic_name = "order.paid";
    order_assembled_topic_name = "order.assembled";
    consumer_group_id = "order";
  });
}

abbrev without_payment : OrderParsers
without_payment = record all_set { payment = λ _. err missing; kafka = λ _. err missing }

abbrev dotenv : Dotenv
dotenv _ env = (ok tt, env)

abbrev fresh : Process OrderConfig
fresh = record { env = λ _. none; cfg = none }

not_local : read_dotenv dotenv [] fresh ≡ (ok tt, fresh)
unfolding read_dotenv should_load_dotenv
not_local = refl

load_order-failure_example :
    load_order without_payment dotenv [] fresh ≡ (err (wrap "config.Load Payment" missing), fresh)
load_order-failure_example =
    load_order-failure without_payment dotenv [] fresh fresh (wrap "config.Load Payment" missing)
      not_local refl

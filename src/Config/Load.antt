-- ===== src/Config/Load.antt =====
-- `Load` of the five services (*/internal/config/config.go). The reading of each struct from the
-- environment is a parameter.
use rocket_maintenance.Common.{String, List, Result, Action, ◌>>=◌, ◌>>◌}
use rocket_maintenance.Config.{
  Env, ConfigError, Dotenv, Process, read_dotenv, section, set_cfg, Host, HttpServer, GrpcServer,
  LoggerEnv, Postgres, Mongo, Kafka, TwoGroups, Telegram,
}

-- order/internal/config/config.go
pub record OrderConfig : Type 0 where
  pub server : HttpServer
  pub inventory : Host
  pub payment : Host
  pub logger : LoggerEnv
  pub postgres : Postgres
  pub kafka : Kafka

pub record OrderParsers : Type 0 where
  pub server : Env → Result ConfigError HttpServer
  pub inventory : Env → Result ConfigError Host
  pub payment : Env → Result ConfigError Host
  pub logger : Env → Result ConfigError LoggerEnv
  pub postgres : Env → Result ConfigError Postgres
  pub kafka : Env → Result ConfigError Kafka

-- `Load` behind the reading of the file.
unfoldable pub order_parts : OrderParsers → Action (Process OrderConfig) ConfigError (Unit {0})
order_parts parsers = do
  server ← section "Server" parsers.server
  inventory ← section "Inventory" parsers.inventory
  payment ← section "Payment" parsers.payment
  logger ← section "Logger" parsers.logger
  postgres ← section "Postgres" parsers.postgres
  kafka ← section "Kafka" parsers.kafka
  set_cfg (record {
    server = server;
    inventory = inventory;
    payment = payment;
    logger = logger;
    postgres = postgres;
    kafka = kafka;
  })

unfoldable pub load_order :
    OrderParsers → Dotenv → List String → Action (Process OrderConfig) ConfigError (Unit {0})
unfolding read_dotenv order_parts
load_order parsers dotenv path = read_dotenv dotenv path >> order_parts parsers

-- inventory/internal/config/config.go
pub record InventoryConfig : Type 0 where
  pub server : GrpcServer
  pub logger : LoggerEnv
  pub mongo : Mongo

pub record InventoryParsers : Type 0 where
  pub server : Env → Result ConfigError GrpcServer
  pub logger : Env → Result ConfigError LoggerEnv
  pub mongo : Env → Result ConfigError Mongo

-- `Load` behind the reading of the file.
unfoldable pub inventory_parts :
    InventoryParsers → Action (Process InventoryConfig) ConfigError (Unit {0})
inventory_parts parsers = do
  server ← section "Server" parsers.server
  logger ← section "Logger" parsers.logger
  mongo ← section "Mongo" parsers.mongo
  set_cfg (record { server = server; logger = logger; mongo = mongo })

unfoldable pub load_inventory :
    InventoryParsers
    → Dotenv
    → List String
    → Action (Process InventoryConfig) ConfigError (Unit {0})
unfolding read_dotenv inventory_parts
load_inventory parsers dotenv path = read_dotenv dotenv path >> inventory_parts parsers

-- payment/internal/config/config.go
pub record PaymentConfig : Type 0 where
  pub server : Host
  pub logger : LoggerEnv

pub record PaymentParsers : Type 0 where
  pub server : Env → Result ConfigError Host
  pub logger : Env → Result ConfigError LoggerEnv

-- `Load` behind the reading of the file.
unfoldable pub payment_parts :
    PaymentParsers → Action (Process PaymentConfig) ConfigError (Unit {0})
payment_parts parsers = do
  server ← section "Server" parsers.server
  logger ← section "Logger" parsers.logger
  set_cfg (record { server = server; logger = logger })

unfoldable pub load_payment :
    PaymentParsers → Dotenv → List String → Action (Process PaymentConfig) ConfigError (Unit {0})
unfolding read_dotenv payment_parts
load_payment parsers dotenv path = read_dotenv dotenv path >> payment_parts parsers

-- assembly/internal/config/config.go
pub record AssemblyConfig : Type 0 where
  pub kafka : Kafka
  pub logger : LoggerEnv

pub record AssemblyParsers : Type 0 where
  pub kafka : Env → Result ConfigError Kafka
  pub logger : Env → Result ConfigError LoggerEnv

-- `Load` behind the reading of the file.
unfoldable pub assembly_parts :
    AssemblyParsers → Action (Process AssemblyConfig) ConfigError (Unit {0})
assembly_parts parsers = do
  kafka ← section "Kafka" parsers.kafka
  logger ← section "Logger" parsers.logger
  set_cfg (record { kafka = kafka; logger = logger })

unfoldable pub load_assembly :
    AssemblyParsers → Dotenv → List String → Action (Process AssemblyConfig) ConfigError (Unit {0})
unfolding read_dotenv assembly_parts
load_assembly parsers dotenv path = read_dotenv dotenv path >> assembly_parts parsers

-- notification/internal/config/config.go
pub record NotificationConfig : Type 0 where
  pub kafka : TwoGroups
  pub telegram : Telegram
  pub logger : LoggerEnv

pub record NotificationParsers : Type 0 where
  pub kafka : Env → Result ConfigError TwoGroups
  pub telegram : Env → Result ConfigError Telegram
  pub logger : Env → Result ConfigError LoggerEnv

-- `Load` behind the reading of the file.
unfoldable pub notification_parts :
    NotificationParsers → Action (Process NotificationConfig) ConfigError (Unit {0})
notification_parts parsers = do
  kafka ← section "Kafka" parsers.kafka
  telegram ← section "Telegram" parsers.telegram
  logger ← section "Logger" parsers.logger
  set_cfg (record { kafka = kafka; telegram = telegram; logger = logger })

unfoldable pub load_notification :
    NotificationParsers
    → Dotenv
    → List String
    → Action (Process NotificationConfig) ConfigError (Unit {0})
unfolding read_dotenv notification_parts
load_notification parsers dotenv path = read_dotenv dotenv path >> notification_parts parsers

-- ===== src/Config.antt =====
-- The configuration of the services: */internal/config/config.go and */internal/config/env. godotenv
-- and the reading of one struct (`env.Parse`) are parameters. Texts of addresses are ASCII bytes.
pub mod Load
pub mod Laws
pub mod Addresses
mod Tests
use Prim.Native.String.{◌++◌}
use mathlib.Core.List
use rocket_maintenance.Common.{
  ℕ, String, Bool, true, false, List, [], ◌∷◌, Option, none, some, Result, ok, err, Action, Error,
  Sentinels, sentinel, wrap, is, ◌>>=◌, ◌>>◌, on_err, pure, if◌then◌else◌,
}
use rocket_maintenance.Common.Int64.{Int64}
use rocket_maintenance.Common.Bytes.{Bytes, show_int}
use rocket_maintenance.Logger.{same_text}

-- os.ErrNotExist
pub data OsError : Type 0 where
  not_exist : OsError

instance abbrev pub os_errors : Sentinels OsError
os_errors = record { tag = λ _. 0; text = λ _. "file does not exist" }

abbrev pub ConfigError : Type 0
ConfigError = Error OsError

-- The environment of the process.
abbrev pub Env : Type 0
Env = String → Option String

-- inventoryEnv, paymentEnv, grpcServerEnv: a host and a port.
pub record Host : Type 0 where
  pub host : Bytes
  pub port : Int64

-- `%s:%d`
unfoldable pub address : Host → Bytes
address h = List.◌++◌ h.host (b':' ∷ show_int h.port)

-- Times are counts of nanoseconds.
pub record HttpServer : Type 0 where
  pub at : Host
  pub read_timeout : Int64
  pub shutdown_timeout : Int64
  pub db_read_timeout : Int64
  pub db_write_timeout : Int64

pub record GrpcServer : Type 0 where
  pub at : Host
  pub db_read_timeout : Int64

pub record LoggerEnv : Type 0 where
  pub level : String
  pub as_json : Bool

pub record Postgres : Type 0 where
  pub at : Host
  pub user : Bytes
  pub password : Bytes
  pub db_name : Bytes
  pub ssl_mode : Bytes
  pub migrations_dir : Bytes

pub record Mongo : Type 0 where
  pub at : Host
  pub user : Bytes
  pub password : Bytes
  pub db_name : Bytes
  pub auth_db : Bytes
  pub parts_collection : Bytes

pub record Kafka : Type 0 where
  pub brokers : List String
  pub order_paid_topic_name : String
  pub order_assembled_topic_name : String
  pub consumer_group_id : String

-- The notification service's, with a group for each topic.
pub record TwoGroups : Type 0 where
  pub brokers : List String
  pub order_paid_topic_name : String
  pub order_paid_consumer_group_id : String
  pub order_assembled_topic_name : String
  pub order_assembled_consumer_group_id : String

pub record Telegram : Type 0 where
  pub token : String

-- The four parts before the last of a database's address, `scheme` included.
abbrev location : Bytes → Bytes → Bytes → Host → Bytes → Bytes
location scheme user password at db_name = List.◌++◌ scheme (
    List.◌++◌ user (b':' ∷ (List.◌++◌ password (b'@' ∷ (List.◌++◌ (address at) (b'/' ∷ db_name))))))

abbrev postgres_scheme : Bytes
postgres_scheme = b'p' ∷ b'o' ∷ b's' ∷ b't' ∷ b'g' ∷ b'r' ∷ b'e' ∷ b's' ∷ b':' ∷ b'/' ∷ b'/' ∷ []

abbrev ssl_mode_key : Bytes
ssl_mode_key = b'?' ∷ b's' ∷ b's' ∷ b'l' ∷ b'm' ∷ b'o' ∷ b'd' ∷ b'e' ∷ b'=' ∷ []

abbrev mongo_scheme : Bytes
mongo_scheme = b'm' ∷ b'o' ∷ b'n' ∷ b'g' ∷ b'o' ∷ b'd' ∷ b'b' ∷ b':' ∷ b'/' ∷ b'/' ∷ []

abbrev auth_source_key : Bytes
auth_source_key =
    b'?' ∷ b'a' ∷ b'u' ∷ b't' ∷ b'h' ∷ b'S' ∷ b'o' ∷ b'u' ∷ b'r' ∷ b'c' ∷ b'e' ∷ b'=' ∷ []

unfoldable pub postgres_dsn : Postgres → Bytes
unfolding address
postgres_dsn c =
    List.◌++◌ (location postgres_scheme c.user c.password c.at c.db_name)
      (List.◌++◌ ssl_mode_key c.ssl_mode)

unfoldable pub mongo_dsn : Mongo → Bytes
unfolding address
mongo_dsn c =
    List.◌++◌ (location mongo_scheme c.user c.password c.at c.db_name)
      (List.◌++◌ auth_source_key c.auth_db)

-- The environment, and the variable `cfg` of a config package.
pub record Process (C : Type 0) : Type 0 where
  pub env : Env
  pub cfg : Option C

unfoldable pub should_load_dotenv : Env → Bool
should_load_dotenv env = elim (env "APP_ENV") [ none ↦ false | some v ↦ same_text v "local" ]

abbrev pub Dotenv : Type 0
Dotenv = List String → Env → Result ConfigError (Unit {0}) × Env

-- An error other than a file that does not exist.
abbrev pub but_not_exist :
    {C : Type 0}
    → Result ConfigError (Unit {0}) × Env
    → Process C
    → Result ConfigError (Unit {0}) × Process C
but_not_exist (ok _, env) p = (ok tt, record p { env = env })
but_not_exist (err e, env) p = (
  if is e not_exist then ok tt else err (wrap "config.Load: load .env" e),
  record p { env = env },
)

module _ {C : Type 0} where
  unfoldable pub read_dotenv : Dotenv → List String → Action (Process C) ConfigError (Unit {0})
  unfolding should_load_dotenv
  read_dotenv dotenv path p =
      if should_load_dotenv p.env then but_not_exist (dotenv path p.env) p else (ok tt, p)

  -- One of the calls of `Load`, with the name of its part of the configuration.
  abbrev pub section :
      {A : Type 0} → String → (Env → Result ConfigError A) → Action (Process C) ConfigError A
  section name parse = on_err (λ p. (parse p.env, p)) (wrap ("config.Load " ++ name))

  abbrev pub set_cfg : C → Action (Process C) ConfigError (Unit {0})
  set_cfg c p = (ok tt, record p { cfg = some c })

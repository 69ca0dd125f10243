-- ===== src/Lib.antt =====
-- A verification library for the core of the rocket-maintenance services.
--
-- The program is a set of Go services: the order service sells the parts that the inventory service
-- lists, charges through the payment service, announces the paid order over Kafka to the assembly
-- service, is told by it that the ship is built, and completes the order; the notification service
-- tells the Telegram chats of both events. The files below follow those parts; each states its source
-- under its own header.
--
--   Common       Go values shared by all parts: errors and `errors.Is` (Errors), calls that change the
--                state outside and may fail or panic (Calls), int64 in two's complement (Int64), the
--                decimal prints of fmt (Bytes), google/uuid as a parameter (Uuids).
--   Proto        The messages of shared/proto, with protobuf and timestamppb as parameters.
--   Order        order/internal. Model and Part are model/; Ports and Service are
--                service/order/service.go (Create, Pay, OrderByID, Cancel, Complete); Table is what the
--                service relies on of its repository, which Repository (repository/order/repository.go)
--                provides over any database engine (Repository/Database); Converter and Transport are
--                converter/order.go and transport/http/order/v1/order.go, with the generated encoders
--                of shared/pkg/openapi/order/v1 in Transport/Encoders; Router is its generated router,
--                with FindPath in Router/Find and Router/Found;
--                Lifecycle runs requests one after the other, Steps call by call in any interleaving;
--                Events is converter/kafka.go with the producer and the consumer; Client is client/,
--                with Listing through the inventory's handler and Chain through the payment's.
--                InMemory is a concrete environment for the examples, and Samples a first order.
--   Inventory    inventory/internal: Model, Text (strings.TrimSpace), Entity and Repository
--                (repository/part), Bootstrap (repository/part/init.go), Service, Converter and Transport.
--   Payment      payment/internal.
--   Assembly     assembly/internal: Codec is what it and the order service write and read, Handler the
--                way of a paid order to its completion. Wire is a concrete wire format for the examples.
--   Notification notification/internal: Chats is the set of chats, Delivery the way of an event to them.
--   Kafka        platform/kafka: Claims is what a claim marks, Chain the middlewares, Header the header
--                map and the end of the consumer's loop.
--   Closer       platform/closer: Shutdown is CloseAll, Named is AddNamed and the signals.
--   Logger       platform/logger.
--   Config       */internal/config of the five services: Load, and the addresses that are printed.
--   App          */internal/app/app.go and */cmd: Start is New and main, Run, Stop and Progress are the runs
--                of the inventory, payment and assembly services as a step relation, Group those of the order and
--                notification services, which wait for two functions.
--   Wiring       */internal/app/di.go: what each getter builds and registers at the closer.
--   Endpoints    The logging interceptor of gRPC, the health endpoints and the Telegram client.
--
-- State. `W` stands for everything outside a function: the database, the other services, and the
-- requests that run while a call waits. A Go method is an `Action`: it takes that state and gives
-- its result or its error with the state that it leaves; a handler that may panic has a `Fault` for
-- its error. The database, squirrel and pgx, MongoDB, google/uuid, protobuf, sarama, the Telegram
-- bot, zap, errgroup, godotenv, the reading of a struct from the environment and the generated gRPC
-- clients are not part of the repository: they are parameters with the behaviour that their
-- documentation promises (`Engine`, `Collection`, `UuidLib`, `ProtoLib`, `TimeLib`, `Service`,
-- `Outside`, `Telegram`, `Zap`, `Group`, `Dotenv`). What arrives from outside in an order of its own
-- (the messages and the end of a claim, the errors of a shutdown, the keys of a map) is an explicit
-- sequence. Contexts and timeouts enter as errors of the calls; log lines are left out, save where a
-- file is about them. A statement that fails may have been committed.
--
-- Bounds. An int64 is its bit pattern below 2 ^ 64, and sums wrap. The decimal print has fuel for 20
-- digits, which every number below 2 ^ 64 fits in. All other loops are over lists. Floating-point
-- numbers and times are bit patterns that are only copied. `strings.ToLower` and the print of a duration
-- are parameters.
--
-- Not modelled: the steps of a start behind the logger, calls of libraries all of them; the migrations,
-- generated code other than the router and the encoders of the order API, mocks and test containers.
pub mod Common
pub mod Proto
pub mod Payment
pub mod Kafka
pub mod Closer
pub mod Assembly
pub mod Inventory
pub mod Notification
pub mod Order
pub mod Logger
pub mod Config
pub mod App
pub mod Endpoints
pub mod Wiring

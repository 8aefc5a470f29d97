-- ===== src/Lib.antt =====
-- Verification of the services of checkout-saga.
--
-- The order service takes POST /orders, builds an order from the command (entity), stores it once
-- per idempotency key in PostgreSQL (repo), and gives it back by id (usecase over repo). The pool
-- that the repository uses is opened by pkg/postgres. The REST controllers authenticate a request by
-- a token of pkg/jwt, decode and validate its body, and answer with the use case's result. Run of
-- internal/order/app loads the configuration, makes the logger, opens the pool, serves until a signal
-- comes, drains the server and closes the pool. The other services log and wait for a signal. The
-- files:
--   Common      native numbers, Go's int64 (Int), texts as byte lists (Text, with TrimSpace in Trim and
--               ToLower in Lower), decimal digits (Decimal), and the lemmas on lists of the parts
--   GoError     Go errors: sentinels, fmt.Errorf with %w, errors.Is, and the result type
--   Money       internal/order/entity/money.go: ParseMoney, String, Mul, MarshalJSON, UnmarshalJSON
--   Order       internal/order/entity/order.go: NewOrder, the status texts
--   UseCase     internal/order/usecase: the interface OrderRepo, OrderUseCase.Create and GetByID
--   Repo        internal/order/repo: OrderRepo.Create, GetByID and the row mapping. Driver is what
--               they call, Postgres its documented laws, Memory a driver that has the laws.
--               Outcomes, Failures, Replays, Ledger, Lookups and Contents are about what
--               any call does; Progress and FirstCreate about calls that a database accepts.
--               Interleaving has the calls of Create that run at the same time: Server is what they
--               use of PostgreSQL, with its laws, Shared a server that has them; Apart, Serial,
--               Local, Invariant and Moves are the invariant, Safety, Races, Atomic, Readers,
--               Balance, Progress, Pool, Deadlock and Completion what follows
--   Checkout    OrderUseCase.Create over Repo
--   Postgres    pkg/postgres: the options, New with its retry loop, Health, Version, Stat, Close.
--               Pgxpool is what they call, Scripted a pool that has its laws
--   Jwt         pkg/jwt: Generate and Parse. Golang is the token library, Plain a library with its laws
--   Http        internal/order/controller/http: Wire (context.go, dto.go, response.go), Middleware,
--               Handlers (order-handler.go, login-handler.go), Router; Logs is the lines that they
--               write. Requests says what POST /orders does on each path, Calls what it stores; Races
--               is about requests at the same time, Protection, Effects, Retries, Placement, Tracing,
--               Lookups and Validation about any whole request
--   Httpserver  pkg/httpserver: New, the goroutine of Start with the channel of Notify, Shutdown
--   Logger      pkg/logger: New, NewWithService, parseLevel, and the trace id and the logger in a
--               context (Contexts). Backend is what it uses of zap, Recording a logger with its law
--   Config      pkg/config and internal/order/app/config.go: the settings with their tags, DSN and Load
--               (Loading). Plain is a loader that goes by the tags
--   App         internal/order/app/app.go and cmd/order/main.go: Run, connectDB, logDBInfo,
--               waitForShutdown, main. Process is what they use of the process and of net/http
--   Services    cmd/saga, cmd/inventory, cmd/payment and cmd/notification
--   Schema      migrations/order/000001_orders.up.sql: column types and CHECK constraints
--
-- Conventions. A UUID that comes from a client may be spelled in several ways, and PostgreSQL
-- prints the standard one: what is stored is compared with what was asked for by the digits
-- (`uuid_digits`). The keys of the laws do not end in spaces, of which a VARCHAR(255) cuts off
-- those beyond its length; the handler trims them. An int64 is the integer that it holds, and
-- `wrap64` stands behind every operation of the source on one; a string is the list of its bytes;
-- a method that reads or writes the database, the pool or the process takes the state and returns
-- it. A call of a library is a field of a driver, which is a parameter; its documented behaviour
-- is a record of laws. The controllers keep the values of a request's context in a record; Logs
-- and pkg/logger have the chain of context.WithValue.
--
-- Loops. The loops over lists are structural. The padding loop of ParseMoney runs on two rounds,
-- which are enough since it stops at two characters (`pad_minor_lem`). The loop of connectWithRetry
-- runs on the number of rounds that its condition allows; Postgres.Termination has the loop with its
-- condition, and the fuel that is enough for it.
--
-- Concurrency. In Repo one OrderRepo.Create is one step of the database, and sequences of calls are
-- the orderings. Repo.Interleaving takes the calls apart: a step is one statement, or one batch, of
-- one of any number of calls; Begin waits while no connection of the pool is free (the laws IsPool),
-- and an INSERT waits for another transaction that has written its key.
-- That a failed Rollback leaves nothing behind is a law of the server, which drops the transaction
-- with the connection.
-- Run and main are sequences of calls on one world; what other goroutines do meanwhile is in what the
-- calls of Process return.
--
-- Not modelled: the messages to stderr of the repository, and the line of a reply that could not be
-- written; time.ParseDuration; encoding/json, the validator, env, zap, pgx, golang-jwt and net/http,
-- which are parameters; the indexes of the tables, and the down migration.
pub mod Common
pub mod GoError
pub mod Money
pub mod Order
pub mod UseCase
pub mod Repo
pub mod Checkout
pub mod Postgres
pub mod Jwt
pub mod Http
pub mod Httpserver
pub mod Logger
pub mod Config
pub mod App
pub mod Services
pub mod Schema

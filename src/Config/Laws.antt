-- ===== src/Config/Laws.antt =====
-- What `Load` does of a failing part (*/internal/config/config.go).
use rocket_maintenance.Common.{
  ◌≡◌, refl, ap, ◌∙◌, String, List, [], ◌∷◌, Option, none, some, Result, ok, err, Action, wrap,
  ◌>>=◌, on_err, >>=-of-ok, arith,
}
use Prim.Native.String.{◌++◌}
use rocket_maintenance.Config.{
  Env, ConfigError, Dotenv, Process, read_dotenv, section, set_cfg, HttpServer, Host, LoggerEnv,
  Postgres, Kafka,
}
use rocket_maintenance.Config.Load.{OrderConfig, OrderParsers, order_parts, load_order}

-- The parts of a configuration, each with what the reading of it returns.
abbrev pub outcome : {A : Type 0} → Result ConfigError A → Option ConfigError
outcome (ok _) = none
outcome (err e) = some e

abbrev pub first_failure : List (String × Option ConfigError) → Option ConfigError
first_failure [] = none
first_failure ((name, none) ∷ rest) = first_failure rest
first_failure ((name, some e) ∷ _) = some (wrap ("config.Load " ++ name) e)

abbrev pub order_outcomes : OrderParsers → Env → List (String × Option ConfigError)
order_outcomes parsers env =
    ("Server", outcome (parsers.server env))
    ∷ ("Inventory", outcome (parsers.inventory env))
    ∷ ("Payment", outcome (parsers.payment env))
    ∷ ("Logger", outcome (parsers.logger env))
    ∷ ("Postgres", outcome (parsers.postgres env))
    ∷ ("Kafka", outcome (parsers.kafka env))
    ∷ []

module _ {C : Type 0} where
  -- A part that cannot be read ends `Load`; the rest decides behind a part that can.
  stage :
      {A : Type 0} (name : String) (parse : Env → Result ConfigError A)
      (f : A → Action (Process C) ConfigError (Unit {0})) (p : Process C)
      (rest : List (String × Option ConfigError)) (e : ConfigError)
      → ((a : A) → first_failure rest ≡ some e → f a p ≡ (err e, p))
      → first_failure ((name, outcome (parse p.env)) ∷ rest) ≡ some e
      → (section name parse >>= f) p ≡ (err e, p)
  stage {A} name parse f p rest e later h = split (parse p.env) h
    where
      split :
          (r : Result ConfigError A)
          → first_failure ((name, outcome r) ∷ rest) ≡ some e
          → (on_err (λ (p : Process C). (r, p)) (wrap ("config.Load " ++ name)) >>= f) p
            ≡ (err e, p)
      split (ok a) k = later a k
      split (err x) k = ground arith

  stage_ok :
      {A : Type 0} (name : String) (parse : Env → Result ConfigError A)
      (f : A → Action (Process C) ConfigError (Unit {0})) (p : Process C)
      (rest : List (String × Option ConfigError))
      → first_failure ((name, outcome (parse p.env)) ∷ rest) ≡ none
      → (a : A) × (parse p.env ≡ ok a)
        × (first_failure rest ≡ none)
        × ((section name parse >>= f) p ≡ f a p)
  stage_ok {A} name parse f p rest h = split (parse p.env) refl h
    where
      split :
          (r : Result ConfigError A)
          → parse p.env ≡ r
          → first_failure ((name, outcome r) ∷ rest) ≡ none
          → (a : A) × (parse p.env ≡ ok a)
            × (first_failure rest ≡ none)
            × ((section name parse >>= f) p ≡ f a p)
      split (ok a) e k = (
        a,
        e,
        k,
        ap (λ r. (on_err (λ (p : Process C). (r, p)) (wrap ("config.Load " ++ name)) >>= f) p) e,
      )
      split (err x) e k = absurd (ground arith)

-- The configuration of the order service holds what each part reads from the environment.
pub record OrderLoaded (parsers : OrderParsers) (env : Env) (c : OrderConfig) : Type 0 where
  pub server : parsers.server env ≡ ok c.server
  pub inventory : parsers.inventory env ≡ ok c.inventory
  pub payment : parsers.payment env ≡ ok c.payment
  pub logger : parsers.logger env ≡ ok c.logger
  pub postgres : parsers.postgres env ≡ ok c.postgres
  pub kafka : parsers.kafka env ≡ ok c.kafka

module _ (parsers : OrderParsers) where
  -- What follows each part, by the parts read so far.
  abbrev Rest : Type 0
  Rest = Action (Process OrderConfig) ConfigError (Unit {0})

  abbrev set_all : HttpServer → Host → Host → LoggerEnv → Postgres → Kafka → Rest
  set_all s i p l d k =
      set_cfg
        (record { server = s; inventory = i; payment = p; logger = l; postgres = d; kafka = k })

  abbrev behind_logger : HttpServer → Host → Host → LoggerEnv → Rest
  behind_logger s i p l = section "Postgres" parsers.postgres >>= λ d.
      section "Kafka" parsers.kafka >>= set_all s i p l d

  abbrev behind_inventory : HttpServer → Host → Rest
  behind_inventory s i = section "Payment" parsers.payment >>= λ p.
      section "Logger" parsers.logger >>= behind_logger s i p

  pub order_parts-failure :
      (p : Process OrderConfig) (e : ConfigError)
      → first_failure (order_outcomes parsers p.env) ≡ some e
      → order_parts parsers p ≡ (err e, p)
  unfolding order_parts
  order_parts-failure p e =
      stage "Server" parsers.server
        (λ s. section "Inventory" parsers.inventory >>= behind_inventory s) p _ e
        λ s. stage "Inventory" parsers.inventory (behind_inventory s) p _ e λ i.
          stage "Payment" parsers.payment
            (λ t. section "Logger" parsers.logger >>= behind_logger s i t) p _ e
            λ t. stage "Logger" parsers.logger (behind_logger s i t) p _ e λ l.
              stage "Postgres" parsers.postgres
                (λ d. section "Kafka" parsers.kafka >>= set_all s i t l d) p _ e
                λ d.
                  stage "Kafka" parsers.kafka (set_all s i t l d) p [] e
                    λ k h. absurd (ground arith)

  pub order_parts_ok :
      (p : Process OrderConfig)
      → first_failure (order_outcomes parsers p.env) ≡ none
      → (c : OrderConfig) × OrderLoaded parsers p.env c
        × (order_parts parsers p ≡ (ok tt, record p { cfg = some c }))
  unfolding order_parts
  order_parts_ok p h₀ =
      let (s, r₁, h₁, e₁) =
        stage_ok "Server" parsers.server
          (λ s. section "Inventory" parsers.inventory >>= behind_inventory s) p _ h₀ in
      let (i, r₂, h₂, e₂) = stage_ok "Inventory" parsers.inventory (behind_inventory s) p _ h₁ in
      let (t, r₃, h₃, e₃) =
        stage_ok "Payment" parsers.payment
          (λ t. section "Logger" parsers.logger >>= behind_logger s i t) p _ h₂ in
      let (l, r₄, h₄, e₄) = stage_ok "Logger" parsers.logger (behind_logger s i t) p _ h₃ in
      let (d, r₅, h₅, e₅) =
        stage_ok "Postgres" parsers.postgres
          (λ d. section "Kafka" parsers.kafka >>= set_all s i t l d) p _ h₄ in
      let (k, r₆, h₆, e₆) = stage_ok "Kafka" parsers.kafka (set_all s i t l d) p [] h₅ in
      (
        record { server = s; inventory = i; payment = t; logger = l; postgres = d; kafka = k },
        record {
          server = r₁;
          inventory = r₂;
          payment = r₃;
          logger = r₄;
          postgres = r₅;
          kafka = r₆;
        },
        e₁ ∙ (e₂ ∙ (e₃ ∙ (e₄ ∙ (e₅ ∙ e₆)))),
      )

-- What `Load` returns when the file is read or need not be.
module _ (parsers : OrderParsers) (dotenv : Dotenv) (path : List String) where
  -- When the file is read, or need not be, and some part of the order service's configuration
  -- cannot be read from the environment, `Load` returns the error of the first such part in the
  -- order of the source, under its name, and the configuration stays as it was.
  pub load_order-failure :
      (p p' : Process OrderConfig) (e : ConfigError)
      → read_dotenv dotenv path p ≡ (ok tt, p')
      → first_failure (order_outcomes parsers p'.env) ≡ some e
      → load_order parsers dotenv path p ≡ (err e, p')
  unfolding load_order
  load_order-failure p p' e read h =
      >>=-of-ok (read_dotenv dotenv path) (λ _. order_parts parsers) p read
      ∙ order_parts-failure parsers p' e h

  pub load_order_ok :
      (p p' : Process OrderConfig)
      → read_dotenv dotenv path p ≡ (ok tt, p')
      → first_failure (order_outcomes parsers p'.env) ≡ none
      → (c : OrderConfig) × OrderLoaded parsers p'.env c
        × (load_order parsers dotenv path p ≡ (ok tt, record p' { cfg = some c }))
  unfolding load_order
  load_order_ok p p' read h =
      let (c, loaded, e) = order_parts_ok parsers p' h in
      (c, loaded, >>=-of-ok (read_dotenv dotenv path) (λ _. order_parts parsers) p read ∙ e)

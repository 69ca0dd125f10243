-- ===== src/Logger.antt =====
-- platform/logger: the global logger. zap is a parameter, and so is `strings.ToLower`; what a line does
-- to the state outside is its `write`.
pub mod Laws
use Prim.Native.String.{compare}
use Prim.Native.Nat.{Ordering}
use rocket_maintenance.Common.{
  String, Bool, true, false, ◌&&◌, not, List, [], ◌∷◌, ◌++◌, Option, none, some, if◌then◌else◌,
  Result, ok, err, Action, Fault, failed, panicked, ◌||◌,
}

abbrev pub same_text : String → String → Bool
same_text s t = elim (compare s t) [ Ordering.eq ↦ true | _ ↦ false ]

pub data Level : Type 0 where
  debug_level info_level warn_level error_level fatal_level : Level

-- A field made by `zap.String`.
pub record Field : Type 0 where
  pub key : String
  pub value : String

-- What a context has under the two keys, when that is a string.
pub record Context : Type 0 where
  pub trace_id : Option String
  pub user_id : Option String

-- The zap library: `Z` stands for a `*zap.Logger`, with the level that it shares in `Level`.
pub record Zap (Z W : Type 0) : Type 0 where
  pub stdout : Bool → Z
  pub nop : Z
  pub with : List Field → Z → Z
  -- a line of a logger, with the level below which it is dropped
  pub write : Level → Z → Level → String → List Field → W → W
  pub sync : Z → Action W String (Unit {0})

-- The variables of the package: `level` is none before `Init` (the zero `AtomicLevel`).
pub record Globals (Z : Type 0) : Type 0 where
  pub global_logger : Option Z
  pub init_once : Bool
  pub dynamic_level : Option Level

abbrev pub fresh : {Z : Type 0} → Globals Z
fresh = record { global_logger = none; init_once = false; dynamic_level = none }

unfoldable pub parse_level : (String → String) → String → Level
parse_level to_lower s =
    let t = to_lower s in
    if same_text t "debug"
    then debug_level
    else if same_text t "info"
    then info_level
    else if same_text t "warn" || same_text t "warning"
    then warn_level
    else if same_text t "error"
    then error_level
    else info_level

-- A string that is set and is not empty.
abbrev pub field_of : String → Option String → List Field
field_of key none = []
field_of key (some v) = if same_text v "" then [] else record { key = key; value = v } ∷ []

unfoldable pub fields_from_context : Context → List Field
fields_from_context ctx = field_of "trace_id" ctx.trace_id ++ field_of "user_id" ctx.user_id

-- The lowest level that is written; zap's zero level is info.
abbrev pub threshold : {Z : Type 0} → Globals Z → Level
threshold g = elim g.dynamic_level [ none ↦ info_level | some l ↦ l ]

module _ {Z W : Type 0} (zap : Zap Z W) (to_lower : String → String) where
  unfoldable pub init : String → Bool → Globals Z → Globals Z
  unfolding parse_level
  init level as_json g = if g.init_once then g else record {
    global_logger = some (zap.stdout as_json);
    init_once = true;
    dynamic_level = some (parse_level to_lower level);
  }

  unfoldable pub set_level : String → Globals Z → Globals Z
  unfolding parse_level
  set_level level g = elim g.dynamic_level [
    | none ↦ g
    | some _ ↦ record g { dynamic_level = some (parse_level to_lower level) }
  ]

module _ {Z W : Type 0} (zap : Zap Z W) where
  unfoldable pub set_nop_logger : Globals Z → Globals Z
  set_nop_logger g = record g { global_logger = some zap.nop }

  -- `With` and `WithContext`
  unfoldable pub with_fields : List Field → Globals Z → Z
  with_fields fields g = elim g.global_logger [ none ↦ zap.nop | some z ↦ zap.with fields z ]

  unfoldable pub with_context : Context → Globals Z → Z
  unfolding with_fields fields_from_context
  with_context ctx g = with_fields (fields_from_context ctx) g

  unfoldable pub sync : Globals Z → Action W String (Unit {0})
  sync g w = elim g.global_logger [ none ↦ (ok tt, w) | some z ↦ zap.sync z w ]

  -- The methods `Debug` to `Fatal`, which read a field of their receiver: it is nil if it is none.
  unfoldable pub log :
      {E : Type 0}
      → Level
      → Option Z
      → Globals Z
      → Context
      → String
      → List Field
      → Action W (Fault E) (Unit {0})
  unfolding fields_from_context
  log level none g ctx msg fields w =
      (err (panicked "invalid memory address or nil pointer dereference"), w)
  log level (some z) g ctx msg fields w =
      (ok tt, zap.write (threshold g) z level msg (fields_from_context ctx ++ fields) w)

  -- The functions `Debug` to `Fatal` of the package.
  unfoldable pub log_global :
      {E : Type 0}
      → Level
      → Globals Z
      → Context
      → String
      → List Field
      → Action W (Fault E) (Unit {0})
  unfolding log
  log_global level g ctx msg fields = log level g.global_logger g ctx msg fields

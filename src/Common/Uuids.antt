-- ===== src/Common/Uuids.antt =====
-- github.com/google/uuid: a UUID is its 16 bytes, read as a number; the library itself is a parameter.
use Prim.Native.Nat.{ℕ, zero, suc, ◌/◌, ◌%◌}
use mathlib.Core.List.{List, [], ◌∷◌}
use Prim.Native.String.{String}
use mathlib.Core.Path.{◌≡◌, refl}
use rocket_maintenance.Common.Calls.{Result, ok, Fault, panicked, map_err}

abbrev pub Uuid : Type 0
Uuid = ℕ

-- `uuid.Nil`
abbrev pub nil : Uuid
nil = 0

-- What the code calls of the library. `parse` gives the value or the text of its error, `random` is
-- `uuid.New`, which draws on the state outside. `String` prints what `Parse` reads back.
pub record UuidLib (W : Type 0) : Type 0 where
  pub to_string : Uuid → String
  pub parse : String → Result String Uuid
  pub random : W → Uuid × W
  pub parse-to_string : (u : Uuid) → parse (to_string u) ≡ ok u

-- `uuid.MustParse`
abbrev pub must_parse : {W E : Type 0} → UuidLib W → String → Result (Fault E) Uuid
must_parse uuids s = map_err panicked (uuids.parse s)

pub must_parse-printed :
    {W E : Type 0} (uuids : UuidLib W) (u : Uuid)
    → must_parse {W = W} {E = E} uuids (uuids.to_string u) ≡ ok u
must_parse-printed uuids u = rw (uuids.parse-to_string u) refl

-- The last `n` bytes before those that are there already; a UUID has 16, the first one highest.
abbrev pub bytes_before : ℕ → Uuid → List ℕ → List ℕ
bytes_before zero u rest = rest
bytes_before (suc n) u rest = bytes_before n (u / 256) ((u % 256) ∷ rest)

-- `id[:]`
abbrev pub raw : Uuid → List ℕ
raw u = bytes_before 16 u []

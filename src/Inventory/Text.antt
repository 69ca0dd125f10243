-- ===== src/Inventory/Text.antt =====
-- `strings.TrimSpace` over code points.
use Prim.Native.String
use Prim.Native.Char.{Char, code}
use rocket_maintenance.Common.{ℕ, Bool, ◌||◌, ◌&&◌, leb, ◌==◌, if◌then◌else◌}

-- `unicode.IsSpace`
abbrev pub is_space_code : ℕ → Bool
is_space_code c =
    (leb 9 c && leb c 13)
    || (c == 32
        || (c == 133
            || (c == 160
                || (c == 5760
                    || ((leb 8192 c && leb c 8202)
                        || (c == 8232
                            || (c == 8233 || (c == 8239 || (c == 8287 || c == 12288)))))))))

abbrev pub is_space : Char → Bool
is_space c = is_space_code (code c)

abbrev pub trim_left : String.String → String.String
trim_left String.[] = String.[]
trim_left (String.◌∷◌ c s) = if is_space c then trim_left s else String.◌∷◌ c s

-- A character that ends the text behind it, when that is empty, goes if it is a space.
abbrev pub ending : Char → String.String → String.String
ending c String.[] = if is_space c then String.[] else String.◌∷◌ c String.[]
ending c (String.◌∷◌ d s) = String.◌∷◌ c (String.◌∷◌ d s)

abbrev pub trim_right : String.String → String.String
trim_right String.[] = String.[]
trim_right (String.◌∷◌ c s) = ending c (trim_right s)

abbrev pub trim_space : String.String → String.String
trim_space s = trim_right (trim_left s)

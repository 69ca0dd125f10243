-- ===== src/Config/Addresses.antt =====
-- The addresses that a configuration prints (*/internal/config/env).
use rocket_maintenance.Common.{
  ℕ, ◌≡◌, ◌≢◌, refl, ap, ◌∙◌, [], ◌∷◌, ◌++◌, All, ◌<◌, ◌==◌, false, if◌then◌else◌, arith,
}
use mathlib.Core.List.{append_assoc}
use rocket_maintenance.Common.Int64.{Int64, sign_bit}
use rocket_maintenance.Common.Bytes.{
  Bytes, read_digits, read_digits-digits, show_int, show_nat, show_int-pos,
}
use rocket_maintenance.Config.{Host, address, Postgres, postgres_dsn, Mongo, mongo_dsn}

-- A text up to its first colon, and the text behind it.
abbrev pub cut_colon : Bytes → Bytes × Bytes
cut_colon [] = ([], [])
cut_colon (c ∷ s) =
    let (before, behind) = cut_colon s in if c == b':' then ([], s) else (c ∷ before, behind)

-- A host and a port as a dialer reads them.
abbrev pub read_address : Bytes → Bytes × ℕ
read_address s = let (host, port) = cut_colon s in (host, (read_digits 0 port).0)

cut_colon-append :
    (host rest : Bytes) → All (λ c. c ≢ b':') host → cut_colon (host ++ b':' ∷ rest) ≡ (host, rest)
cut_colon-append [] rest h = refl
cut_colon-append (c ∷ s) rest (n, h) =
    let other : (c == b':') ≡ false = ground arith in
    rw other (ap (λ (r : Bytes × Bytes). (c ∷ r.0, r.1)) (cut_colon-append s rest h))

read-show_int : (n : Int64) → n < sign_bit → (read_digits 0 (show_int n)).0 ≡ n
unfolding show_nat read_digits
read-show_int n h =
    rw (show_int-pos n h) (ap (λ (r : ℕ × Bytes). r.0) (read_digits-digits 20 n [] (omega arith)))

-- An address made of a host without a colon and of a port below 2 ^ 63 reads back as that host and
-- that port.
pub read_address-address :
    (h : Host)
    → All (λ c. c ≢ b':') h.host
    → h.port < sign_bit
    → read_address (address h) ≡ (h.host, h.port)
unfolding address
read_address-address h n p =
    ap (λ (r : Bytes × Bytes). (r.0, (read_digits 0 r.1).0))
      (cut_colon-append h.host (show_int h.port) n)
    ∙ ap (λ k. (h.host, k)) (read-show_int h.port p)

-- Where the password ends cannot be told from the address.
pub postgres_dsn-ambiguous :
    (c : Postgres) (q : Bytes)
    → postgres_dsn (record c { password = c.password ++ (b'@' ∷ q) })
      ≡ postgres_dsn (record c { at = record c.at { host = q ++ (b'@' ∷ c.at.host) } })
unfolding postgres_dsn address
postgres_dsn-ambiguous c q = simp append_assoc refl

pub mongo_dsn-ambiguous :
    (c : Mongo) (q : Bytes)
    → mongo_dsn (record c { password = c.password ++ (b'@' ∷ q) })
      ≡ mongo_dsn (record c { at = record c.at { host = q ++ (b'@' ∷ c.at.host) } })
unfolding mongo_dsn address
mongo_dsn-ambiguous c q = simp append_assoc refl

-- ===== src/Order/Router/Cuts.antt =====
-- What the steps of the router cut off a path.
use rocket_maintenance.Common.{
  ◌≡◌, refl, ap, Bool, true, false, [], ◌∷◌, ◌++◌, none, some, ◌==◌, inl, inr, not, ◌&&◌,
  Bool-cases, ==→eq, arith,
}
use rocket_maintenance.Common.Bytes.{Bytes}
use rocket_maintenance.Order.Router.{cut, until_slash, cut_prefix}

abbrev pub no_slash : Bytes → Bool
no_slash [] = true
no_slash (c ∷ s) = not (c == b'/') && no_slash s

pub cut-append : (p t : Bytes) → cut p (p ++ t) ≡ some t
unfolding cut
cut-append [] t = refl
cut-append (c ∷ p) t = let same : (c == c) ≡ true = ground arith in rw same (cut-append p t)

pub cut-eq-some : (p s : Bytes) {t : Bytes} → cut p s ≡ some t → s ≡ p ++ t
unfolding cut
cut-eq-some [] s h = ground arith
cut-eq-some (c ∷ p) [] h = ground arith
cut-eq-some (c ∷ p) (d ∷ s) {t} h = elim (Bool-cases (c == d)) [
  | inl same ↦
      let rest : cut p s ≡ some t = rw same at h in
      let eq = ==→eq c d same in let eq' = cut-eq-some p s rest in cc
  | inr differ ↦ let wrong : none ≡ some t = rw differ at h in ground arith
]

pub until_slash-append :
    (id s : Bytes) → no_slash id ≡ true → until_slash (id ++ (b'/' ∷ s)) ≡ (id, b'/' ∷ s)
unfolding until_slash
until_slash-append [] s h = refl
until_slash-append (c ∷ id) s h =
    let other : (c == b'/') ≡ false = ground arith in
    let rest : no_slash id ≡ true = ground arith in rw (other, until_slash-append id s rest) refl

pub until_slash-all : (id : Bytes) → no_slash id ≡ true → until_slash id ≡ (id, [])
unfolding until_slash
until_slash-all [] h = refl
until_slash-all (c ∷ id) h =
    let other : (c == b'/') ≡ false = ground arith in
    let rest : no_slash id ≡ true = ground arith in rw (other, until_slash-all id rest) refl

pub until_slash-parts :
    (s : Bytes) → ((until_slash s).0 ++ (until_slash s).1 ≡ s) × (no_slash (until_slash s).0 ≡ true)
unfolding until_slash
until_slash-parts [] = (refl, refl)
until_slash-parts (c ∷ s) = elim (Bool-cases (c == b'/')) [
  | inl it ↦ rw it (refl, refl)
  | inr other ↦
      let (whole, free) = until_slash-parts s in rw other (rw other (ap (λ t. c ∷ t) whole, free))
]

pub cut_prefix-cut : (p s : Bytes) → cut_prefix p s ≡ cut p s
unfolding cut_prefix cut
cut_prefix-cut [] s = refl
cut_prefix-cut (_ ∷ _) s = refl

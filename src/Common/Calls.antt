-- ===== src/Common/Calls.antt =====
-- A Go call: it takes the state of everything outside the function (databases, other services, the
-- requests that run meanwhile) and gives `(value, nil)` or `(_, err)` with the state that it leaves.
use mathlib.Core.Path.{◌≡◌, refl, ap}
use Prim.Native.String.{String}
use native.Mathlib.Omega.{arith}

pub data Result (E A : Type 0) : Type 0 where
  ok : A → Result E A
  err : E → Result E A

abbrev pub map_err : {E F A : Type 0} → (E → F) → Result E A → Result F A
map_err f (ok a) = ok a
map_err f (err e) = err (f e)

pub map_err-eq-ok :
    {E F A : Type 0} (f : E → F) (r : Result E A) {a : A} → map_err f r ≡ ok a → r ≡ ok a
map_err-eq-ok f r h = ground arith

abbrev pub Action : Type 0 → Type 0 → Type 0 → Type 0
Action W E A = W → Result E A × W

-- How a call ends that has no value: it returns an error, or it panics.
pub data Fault (E : Type 0) : Type 0 where
  failed : E → Fault E
  panicked : String → Fault E

module _ {W E A : Type 0} where
  abbrev pub pure : A → Action W E A
  pure a w = (ok a, w)

  abbrev pub fail : E → Action W E A
  fail e w = (err e, w)

  abbrev pub lift : Result E A → Action W E A
  lift r w = (r, w)

-- `if err != nil { return f(err) }` behind a call.
abbrev pub on_err : {W E F A : Type 0} → Action W E A → (E → F) → Action W F A
on_err m f w = (map_err f (m w).0, (m w).1)

infixl 5 ◌>>=◌ ◌>>◌
abbrev pub ◌>>=◌ : {W E A B : Type 0} → Action W E A → (A → Action W E B) → Action W E B
◌>>=◌ m f w = elim (m w).0 [ ok a ↦ f a (m w).1 | err e ↦ (err e, (m w).1) ]

abbrev pub ◌>>◌ : {W E A B : Type 0} → Action W E A → Action W E B → Action W E B
m >> k = m >>= λ _. k

-- What a call that succeeds behind a bind has done, step by step.
pub >>=-eq-ok :
    {W E A B : Type 0} (m : Action W E A) (f : A → Action W E B) (w : W) {b : B} {w' : W}
    → (m >>= f) w ≡ (ok b, w')
    → (a : A) × (w₁ : W) × (m w ≡ (ok a, w₁)) × (f a w₁ ≡ (ok b, w'))
>>=-eq-ok {W} {E} {A} {B} m f w {b} {w'} h = split (m w) refl h
  where
    split :
        (r : Result E A × W)
        → m w ≡ r
        → ◌>>=◌ (λ _. r) f w ≡ (ok b, w')
        → (a : A) × (w₁ : W) × (m w ≡ (ok a, w₁)) × (f a w₁ ≡ (ok b, w'))
    split (ok a, w₁) e k = (a, w₁, e, k)
    split (err x, w₁) e k = absurd (ground arith)

-- A call whose errors are rewrapped succeeds as the call does.
pub on_err-eq-ok :
    {W E F A : Type 0} (m : Action W E A) (f : E → F) (w : W) {a : A} {w' : W}
    → on_err m f w ≡ (ok a, w')
    → m w ≡ (ok a, w')
on_err-eq-ok m f w h = ground arith

pub on_err-eq-err :
    {W E F A : Type 0} (m : Action W E A) (f : E → F) (w : W) {x : F} {w' : W}
    → on_err m f w ≡ (err x, w')
    → (e : E) × (m w ≡ (err e, w'))
on_err-eq-err {W} {E} {F} {A} m f w {x} {w'} h = split (m w) refl h
  where
    split :
        (r : Result E A × W)
        → m w ≡ r
        → on_err (λ (_ : W). r) f w ≡ (err x, w')
        → (e : E) × (m w ≡ (err e, w'))
    split (ok a, w₁) e k = absurd (ground arith)
    split (err y, w₁) e k = (y, ground arith)

-- To show `P` of the state behind a chain of calls: behind the first call, if it fails, and behind
-- the rest, if it succeeds.
pub >>=_rule :
    {W E A B : Type 0} (P : W → Type 0) (m : Action W E A) (f : A → Action W E B) (w : W)
    → ((a : A) (w₁ : W) → m w ≡ (ok a, w₁) → P (f a w₁).1)
    → ((e : E) (w₁ : W) → m w ≡ (err e, w₁) → P w₁)
    → P ((m >>= f) w).1
>>=_rule {W} {E} {A} {B} P m f w done broke = split (m w) refl
  where
    split : (r : Result E A × W) → m w ≡ r → P (◌>>=◌ (λ (_ : W). r) f w).1
    split (ok a, w₁) e = done a w₁ e
    split (err x, w₁) e = broke x w₁ e

pub on_err->>=_rule :
    {W E F A B : Type 0} (P : W → Type 0) (m : Action W E A) (g : E → F) (f : A → Action W F B)
    (w : W)
    → ((a : A) (w₁ : W) → m w ≡ (ok a, w₁) → P (f a w₁).1)
    → ((e : E) (w₁ : W) → m w ≡ (err e, w₁) → P w₁)
    → P ((on_err m g >>= f) w).1
on_err->>=_rule P m g f w done broke =
    >>=_rule P (on_err m g) f w (λ a w₁ e. done a w₁ (on_err-eq-ok m g w e))
      (λ x w₁ e. let (y, e') = on_err-eq-err m g w e in broke y w₁ e')

-- An error that is rewrapped, while a panic goes on.
abbrev pub in_failure : {E F : Type 0} → (E → F) → Fault E → Fault F
in_failure f (failed e) = failed (f e)
in_failure f (panicked r) = panicked r

-- A chain whose first call succeeds is the rest of it; a chain whose first call fails ends there.
pub on_err->>=-of-ok :
    {W E F A B : Type 0} (m : Action W E A) (g : E → F) (f : A → Action W F B) (w : W) {a : A}
    {w₁ : W}
    → m w ≡ (ok a, w₁)
    → (on_err m g >>= f) w ≡ f a w₁
on_err->>=-of-ok m g f w e = ap (λ r. (on_err (λ (_ : _). r) g >>= f) w) e

pub on_err->>=-of-err :
    {W E F A B : Type 0} (m : Action W E A) (g : E → F) (f : A → Action W F B) (w : W) {x : E}
    {w₁ : W}
    → m w ≡ (err x, w₁)
    → (on_err m g >>= f) w ≡ (err (g x), w₁)
on_err->>=-of-err m g f w e = ap (λ r. (on_err (λ (_ : _). r) g >>= f) w) e

pub >>=-of-ok :
    {W E A B : Type 0} (m : Action W E A) (f : A → Action W E B) (w : W) {a : A} {w₁ : W}
    → m w ≡ (ok a, w₁)
    → (m >>= f) w ≡ f a w₁
>>=-of-ok m f w e = ap (λ r. ◌>>=◌ (λ (_ : _). r) f w) e

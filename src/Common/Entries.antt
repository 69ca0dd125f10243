-- ===== src/Common/Entries.antt =====
-- Lists with no entry twice, and how long they can be.
use Prim.Native.Nat.{◌≤◌}
use mathlib.Core.Path.{◌≡◌, sym, ap}
use mathlib.Core.Logic.{◌≢◌, ◌⊎◌, inl, inr}
use mathlib.Core.List.{List, [], ◌∷◌, ◌++◌, map}
use native.Mathlib.Omega.{arith}
use rocket_maintenance.Common.Lists.{length, length-append, All}

module _ {A : Type 0} where
  abbrev pub In : A → List A → Type 0
  In x [] = ⊥
  In x (y ∷ ys) = (x ≡ y) ⊎ In x ys

  abbrev pub Distinct : List A → Type 0
  Distinct [] = Unit
  Distinct (x ∷ xs) = All (λ y. y ≢ x) xs × Distinct xs

  In-split : (x : A) (ys : List A) → In x ys → (a : List A) × (b : List A) × (ys ≡ a ++ (x ∷ b))
  In-split x [] h = absurd h
  In-split x (y ∷ ys) (inl e) = ([], ys, ap (λ z. z ∷ ys) (sym e))
  In-split x (y ∷ ys) (inr h) = let (a, b, e) = In-split x ys h in (y ∷ a, b, ap (λ l. y ∷ l) e)

  In-one : (x y : A) (a b : List A) → In y (a ++ (x ∷ b)) → (y ≡ x) ⊎ In y (a ++ b)
  In-one x y [] b (inl e) = inl e
  In-one x y [] b (inr h) = inr h
  In-one x y (z ∷ a) b (inl e) = inr (inl e)
  In-one x y (z ∷ a) b (inr h) = elim (In-one x y a b h) [ inl e ↦ inl e | inr k ↦ inr (inr k) ]

  In-remove : (x y : A) (a b : List A) → y ≢ x → In y (a ++ (x ∷ b)) → In y (a ++ b)
  In-remove x y a b n h = elim (In-one x y a b h) [ inl e ↦ absurd (n e) | inr k ↦ k ]

  All-remove :
      (x : A) (a b xs : List A)
      → All (λ y. y ≢ x) xs
      → All (λ y. In y (a ++ (x ∷ b))) xs
      → All (λ y. In y (a ++ b)) xs
  All-remove x a b [] n h = tt
  All-remove x a b (y ∷ xs) (n, ns) (h, hs) = (In-remove x y a b n h, All-remove x a b xs ns hs)

  -- Distinct entries of a list are no more than the list has.
  pub Distinct-length :
      (xs ys : List A) → Distinct xs → All (λ x. In x ys) xs → length xs ≤ length ys
  Distinct-length [] ys d h = omega arith
  Distinct-length (x ∷ xs) ys (n, d) (h, hs) =
      let (a, b, e) = In-split x ys h in
      let rest = Distinct-length xs (a ++ b) d (All-remove x a b xs n (rw e at hs)) in
      omega (arith, rest, length-append a b, length-append a (x ∷ b), ap length e)

  -- What is there twice counts once.
  pub In-again : (x y : A) (a b : List A) → In x (a ++ b) → In y (a ++ (x ∷ b)) → In y (a ++ b)
  In-again x y a b h k = elim (In-one x y a b k) [ inl e ↦ rw e h | inr m ↦ m ]

  pub All-again :
      (x : A) (a b xs : List A)
      → In x (a ++ b)
      → All (λ y. In y (a ++ (x ∷ b))) xs
      → All (λ y. In y (a ++ b)) xs
  All-again x a b [] h _ = tt
  All-again x a b (y ∷ xs) h (k, ks) = (In-again x y a b h k, All-again x a b xs h ks)

module _ {A B : Type 0} (f : A → B) where
  pub In-map : (x : A) (xs : List A) → In x xs → In (f x) (map f xs)
  In-map x [] h = absurd h
  In-map x (y ∷ xs) (inl e) = inl (ap f e)
  In-map x (y ∷ xs) (inr h) = inr (In-map x xs h)

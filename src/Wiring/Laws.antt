-- ===== src/Wiring/Laws.antt =====
-- What a getter of a container leaves (*/internal/app/di.go).
use rocket_maintenance.Common.{
  ℕ, suc, ◌≤◌, ◌<◌, ◌≡◌, ◌≢◌, inl, inr, refl, sym, ap, ◌∙◌, String, false, List, [], ◌∷◌, ◌++◌,
  Result, ok, ◌>>◌, >>=-eq-ok, All, Distinct, arith, Bool-cases, map,
}
use mathlib.Core.List.{append_assoc, append-nil, map-append}
use rocket_maintenance.Wiring.{
  Container, Getter, has, construct, register, call, opened, set, lazily,
}

All-append : {A : Type 0} (P : A → Type 0) (xs ys : List A) → All P xs → All P ys → All P (xs ++ ys)
All-append P [] ys _ b = b
All-append P (x ∷ xs) ys (p, a) b = (p, All-append P xs ys a b)

All-weaken :
    {A : Type 0} (f : A → ℕ) (n m : ℕ) (xs : List A)
    → n ≤ m
    → All (λ x. f x < n) xs
    → All (λ x. f x < m) xs
All-weaken f n m [] h _ = tt
All-weaken f n m (x ∷ xs) h (p, a) = (omega (arith, p, h), All-weaken f n m xs h a)

-- The names that the parts of a list register.
abbrev pub names_of : {P : Type 0} → (P → List String) → List P → List String
names_of name [] = []
names_of name (p ∷ ps) = name p ++ names_of name ps

names_of-append :
    {P : Type 0} (name : P → List String) (ps qs : List P)
    → names_of name (ps ++ qs) ≡ names_of name ps ++ names_of name qs
names_of-append name [] qs = refl
names_of-append name (p ∷ ps) qs =
    ap (λ l. name p ++ l) (names_of-append name ps qs)
    ∙ sym (append_assoc (name p) (names_of name ps) (names_of name qs))

-- No part is in the list that has the number `n`.
abbrev pub Without : {P : Type 0} → (P → ℕ) → ℕ → List P → Type 0
Without tag n ps = All (λ q. tag q ≢ n) ps

has-Without :
    {P : Type 0} (tag : P → ℕ) (p : P) (ps : List P) → has tag p ps ≡ false → Without tag (tag p) ps
has-Without tag p [] h = tt
has-Without tag p (q ∷ qs) h = (λ e. absurd (ground arith), has-Without tag p qs (ground arith))

below-Without :
    {P : Type 0} (tag : P → ℕ) (n : ℕ) (ps : List P) → All (λ q. tag q < n) ps → Without tag n ps
below-Without tag n [] _ = tt
below-Without tag n (p ∷ ps) (h, hs) =
    (λ e. absurd (omega (arith, h, e)), below-Without tag n ps hs)

-- Each part once.
abbrev pub Once : {P : Type 0} → (P → ℕ) → List P → Type 0
Once tag ps = Distinct (map tag ps)

All-last :
    {A : Type 0} (P : A → Type 0) (xs : List A) (y : A) → All P xs → P y → All P (xs ++ (y ∷ []))
All-last P xs y a p = All-append P xs (y ∷ []) a (p, tt)

Once-last :
    {P : Type 0} (tag : P → ℕ) (ps : List P) (p : P)
    → Once tag ps
    → Without tag (tag p) ps
    → Once tag (ps ++ (p ∷ []))
Once-last tag [] p _ _ = (tt, tt)
Once-last tag (q ∷ qs) p (n, d) (h, hs) = (
  rw (map-append tag qs (p ∷ []))
      (All-last (λ y. y ≢ tag q) (map tag qs) (tag p) n (λ e. h (sym e))),
  Once-last tag qs p d hs,
)

module _ {P W : Type 0} where
  -- A step that succeeds registers these names and builds construct.
  abbrev pub Adds : List String → Getter P W → Type 0
  Adds names f =
      (c c' : Container P W)
      → f c ≡ (ok tt, c')
      → (c'.built ≡ c.built) × (c'.registered ≡ c.registered ++ names)

  pub Adds-construct : Adds [] construct
  Adds-construct c c' e = (ground arith, ground (arith, append-nil c.registered))

  pub Adds-register : (s : String) → Adds (s ∷ []) (register s)
  Adds-register s c c' e = (ground arith, ground arith)

  pub Adds-call :
      (f : W → Result String (Unit {0}) × W) (text : String → String) → Adds [] (call f text)
  Adds-call f text c c' e = (ground arith, ground (arith, append-nil c.registered))

  pub Adds->> :
      (xs ys : List String) (f g : Getter P W) → Adds xs f → Adds ys g → Adds (xs ++ ys) (f >> g)
  Adds->> xs ys f g a b c c' e =
      let (u, c₁, e₁, e₂) = >>=-eq-ok f (λ _. g) c e in
      let (built₁, names₁) = a c c₁ (ground arith) in
      let (built₂, names₂) = b c₁ c' e₂ in
      (built₂ ∙ built₁, names₂ ∙ (ap (λ l. l ++ ys) names₁ ∙ append_assoc c.registered xs ys))

  -- A call of a library whose result is registered at once.
  pub Adds-opened :
      (f : W → Result String (Unit {0}) × W) (text : String → String) (s : String)
      → Adds (s ∷ []) (opened f text s)
  unfolding opened
  Adds-opened f text s =
      Adds->> [] (s ∷ []) (call f text) (register s) (Adds-call f text) (Adds-register s)

module _ {P W : Type 0} (tag : P → ℕ) (name : P → List String) where
  -- What is at the closer is what the built parts register, each of them once.
  pub record IsSound (c : Container P W) : Type 0 where
    pub names : c.registered ≡ names_of name c.built
    pub once : Once tag c.built

  -- A step that succeeds keeps a container sound and builds only parts with numbers below `n`.
  pub record Grown (n : ℕ) (c c' : Container P W) : Type 0 where
    pub sound : IsSound c'
    pub added : List P
    pub more : c'.built ≡ c.built ++ added
    pub below : All (λ p. tag p < n) added

  abbrev pub Grows : ℕ → Getter P W → Type 0
  Grows n f = (c c' : Container P W) → IsSound c → f c ≡ (ok tt, c') → Grown n c c'

  pub Grows-construct : (n : ℕ) → Grows n construct
  Grows-construct n c c' v e =
      let same : c ≡ c' = ground arith in
      record {
        sound = rw (← same) v;
        added = [];
        more = rw (← same) (sym (append-nil c.built));
        below = tt;
      }

  pub Grows->> : (n : ℕ) (f g : Getter P W) → Grows n f → Grows n g → Grows n (f >> g)
  Grows->> n f g a b c c' v e =
      let (u, c₁, e₁, e₂) = >>=-eq-ok f (λ _. g) c e in
      let x = a c c₁ v (ground arith) in
      let y = b c₁ c' x.sound e₂ in
      record {
        sound = y.sound;
        added = x.added ++ y.added;
        more = y.more ∙ (ap (λ l. l ++ y.added) x.more ∙ append_assoc c.built x.added y.added);
        below = All-append (λ p. tag p < n) x.added y.added x.below y.below;
      }

  pub Grows-weaken : (n m : ℕ) (f : Getter P W) → n ≤ m → Grows n f → Grows m f
  Grows-weaken n m f h a c c' v e =
      let x = a c c' v e in
      record {
        sound = x.sound;
        added = x.added;
        more = x.more;
        below = All-weaken tag n m x.added h x.below;
      }

  -- A getter: the parts that it needs have smaller numbers, and what follows them registers the names
  -- of its own part.
  pub Grows-lazily :
      (p : P) (needs own : Getter P W)
      → Grows (tag p) needs
      → Adds (name p) own
      → Grows (suc (tag p)) (lazily tag p (needs >> own))
  unfolding lazily
  Grows-lazily p needs own a b c c' v e = elim (Bool-cases (has tag p c.built)) [
    | inl there ↦ Grows-construct (suc (tag p)) c c' v (rw (there, lazily) at e)
    | inr missing ↦
        let (u, c₁, e₁, e₂) = >>=-eq-ok (needs >> own) (λ _. set p) c (rw (missing, lazily) at e) in
        let (u', c₀, e₃, e₄) = >>=-eq-ok needs (λ _. own) c e₁ in
        let x = a c c₀ v (ground arith) in
        let (built, names) = b c₀ c₁ e₄ in
        let last : c'.built ≡ c₀.built ++ (p ∷ []) =
          ap (λ (r : Result String (Unit {0}) × Container P W). r.1.built) (sym e₂)
          ∙ ap (λ l. l ++ (p ∷ [])) built in
        let kept : c'.registered ≡ c₁.registered =
          ap (λ (r : Result String (Unit {0}) × Container P W). r.1.registered) (sym e₂) in
        let fresh : Without tag (tag p) c₀.built = rw x.more (
          All-append (λ q. tag q ≢ tag p) c.built x.added (has-Without tag p c.built missing)
            (below-Without tag (tag p) x.added x.below)) in
        record {
          sound = record {
            names =
                kept
                ∙ (names
                    ∙ (ap (λ l. l ++ name p) x.sound.names
                        ∙ (ap (λ l. names_of name c₀.built ++ l) (sym (append-nil (name p)))
                            ∙ (sym (names_of-append name c₀.built (p ∷ []))
                                ∙ ap (names_of name) (sym last)))));
            once = rw last (Once-last tag c₀.built p x.sound.once fresh);
          };
          added = x.added ++ (p ∷ []);
          more = last ∙ (ap (λ l. l ++ (p ∷ [])) x.more ∙ append_assoc c.built x.added (p ∷ []));
          below =
              All-append (λ q. tag q < suc (tag p)) x.added (p ∷ [])
                (All-weaken tag (tag p) (suc (tag p)) x.added (omega arith) x.below)
                (omega arith, tt);
        }
  ]

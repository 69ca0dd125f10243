-- ===== src/Notification/Chats.antt =====
-- The set of chats, and who gets a message.
use rocket_maintenance.Common.{
  ◌≡◌, ◌≤◌, refl, ap, ◌∙◌, ℕ, ◌+◌, String, true, false, List, [], ◌∷◌, ◌++◌, ◌==◌, Result, ok, err,
  Action, Error, arith, if◌then◌else◌, Bool-cases, inl, inr, ◌>>=◌, >>=-eq-ok,
}
use rocket_maintenance.Common.Int64.{Int64}
use rocket_maintenance.Notification.{is_known, add_chat_id, send_each}

-- How often a chat is on a list.
abbrev pub count : Int64 → List Int64 → ℕ
count c [] = 0
count c (x ∷ xs) = (if c == x then 1 else 0) + count c xs

-- The keys of a map: none is there twice.
abbrev pub IsKeys : List Int64 → Type 0
IsKeys xs = (c : Int64) → count c xs ≤ 1

is_known-count : (c : Int64) (xs : List Int64) → is_known c xs ≡ false → count c xs ≡ 0
is_known-count c [] h = refl
is_known-count c (x ∷ xs) h = let rest = is_known-count c xs in ground arith

is_known-positive : (c : Int64) (xs : List Int64) → is_known c xs ≡ true → 1 ≤ count c xs
is_known-positive c [] h = absurd (ground arith)
is_known-positive c (x ∷ xs) h = let rest = is_known-positive c xs in ground arith

-- Adding a chat to the keys of a map makes it one of them, changes nothing for any other chat, and
-- leaves no chat twice.
pub add_chat_id-IsKeys :
    (c : Int64) (xs : List Int64)
    → IsKeys xs
    → IsKeys (add_chat_id c xs)
      × ((k : Int64) → count k (add_chat_id c xs) ≡ (if k == c then 1 else count k xs))
unfolding add_chat_id
add_chat_id-IsKeys c xs keys = elim (Bool-cases (is_known c xs)) [
  | inl known ↦
      let there = is_known-positive c xs known in
      let once = keys c in rw known (keys, λ k. ground arith)
  | inr new ↦
      let none_yet = is_known-count c xs new in
      rw new (λ k. let most = keys k in ground (arith), λ k. ground arith)
]

-- The messages that were sent without an error, one to each chat of the list, from `w` to `w'`.
abbrev pub Delivered :
    {W S : Type 0}
    → (Int64 → String → Action W (Error S) (Unit {0}))
    → String
    → List Int64
    → W
    → W
    → Type 0
Delivered send msg [] w w' = w ≡ w'
Delivered {W} send msg (c ∷ cs) w w' =
    (w₁ : W) × (send c msg w ≡ (ok tt, w₁)) × Delivered send msg cs w₁ w'

module _ {W S : Type 0} (send : Int64 → String → Action W (Error S) (Unit {0})) (msg : String) where
  -- A loop that succeeds has sent the message to each chat of the list.
  pub send_each_ok :
      (cs : List Int64) (w : W) {w' : W}
      → send_each send msg cs w ≡ (ok tt, w')
      → Delivered send msg cs w w'
  unfolding send_each
  send_each_ok [] w h = ap (λ r. r.1) h
  send_each_ok (c ∷ cs) w h =
      let (u, w₁, e, k) = >>=-eq-ok (send c msg) (λ _. send_each send msg cs) w h in
      (w₁, e, send_each_ok cs w₁ k)

  -- A loop over the chats that fails has sent the message to the chats before one whose sending
  -- failed, and to none behind it.
  pub send_each_err :
      (cs : List Int64) (w : W) {e : Error S} {w' : W}
      → send_each send msg cs w ≡ (err e, w')
      → (before : List Int64) × (c : Int64) × (after : List Int64) × (cs ≡ before ++ (c ∷ after))
        × ((w₁ : W) × Delivered send msg before w w₁ × (send c msg w₁ ≡ (err e, w')))
  unfolding send_each
  send_each_err [] w h = absurd (ground arith)
  send_each_err (c ∷ cs) w {e} {w'} h = split (send c msg w) refl h (λ v. send_each_err cs v)
    where
      split :
          (r : Result (Error S) (Unit {0}) × W)
          → send c msg w ≡ r
          → ◌>>=◌ (λ (_ : W). r) (λ _. send_each send msg cs) w ≡ (err e, w')
          → ((v : W)
              → send_each send msg cs v ≡ (err e, w')
              → (before : List Int64) × (d : Int64) × (after : List Int64) × (cs
                  ≡ before ++ (d ∷ after))
                × ((w₁ : W) × Delivered send msg before v w₁ × (send d msg w₁ ≡ (err e, w'))))
          → (before : List Int64) × (d : Int64) × (after : List Int64) × ((c ∷ cs)
              ≡ before ++ (d ∷ after))
            × ((w₁ : W) × Delivered send msg before w w₁ × (send d msg w₁ ≡ (err e, w')))
      split (ok _, v) sent k rest =
          let (before, d, after, eq, (w₁, there, failing)) = rest v k in
          (c ∷ before, d, after, ap (λ l. c ∷ l) eq, (w₁, (v, sent, there), failing))
      split (err x, v) sent k rest = ([], c, cs, refl, (w, refl, sent ∙ k))

-- ===== src/Closer/Shutdown.antt =====
-- What a shutdown returns.
use rocket_maintenance.Common.{
  ◌≡◌, refl, sym, ap, ◌∙◌, true, false, List, [], ◌∷◌, ◌++◌, map, is_empty, Option, none, some,
  Result, ok, err, Fault, failed, panicked, Error, arith, ◌↔◌, All,
}
use mathlib.Core.Path.{subst}
use mathlib.Core.List.Perm.{nil-eq, eq-nil}
use mathlib.Core.List.{Perm, append_assoc, append-nil, map-append}
use rocket_maintenance.Closer.{
  Closer, started, report, CloseEvent, closing_error, context_done, channel_closed, or_first,
  collect, close_all, add,
}

abbrev pub first : {A : Type 0} → List A → Option A
first [] = none
first (x ∷ _) = some x

collect-errors :
    {S : Type 0} (r : Error S) (es : List (Error S)) (events : List (CloseEvent S))
    → collect (some r) (map closing_error es ++ events) ≡ collect (some r) events
unfolding collect
collect-errors r [] events = refl
collect-errors r (e ∷ es) events = collect-errors r es events

-- A first shutdown of some functions that is not cut short returns the error that arrives first, or
-- nil if none does; the functions are gone, and a later call returns nil at once, whatever has been
-- added since.
pub close_all_ok :
    {F S : Type 0} (c : Closer F) (es : List (Error S)) (later : List F)
    (events : List (CloseEvent S))
    → c.called ≡ false
    → is_empty c.funcs ≡ false
    → let (r, c') = close_all c (map closing_error es ++ (channel_closed ∷ [])) in
      (r ≡ some (first es))
      × (c' ≡ record { funcs = []; called = true })
      × ((close_all (add later c') events).0 ≡ some none)
unfolding close_all add
close_all_ok c [] later events n f = rw (n, f) (refl, refl, refl)
close_all_ok c (e ∷ es) later events n f =
    rw (n, f) (collect-errors e es (channel_closed ∷ []), refl, refl)

-- A first shutdown of some functions whose context is done first returns the error that has arrived first, or the context's
-- if none has, without waiting for the rest.
pub close_all_cut :
    {F S : Type 0} (c : Closer F) (es : List (Error S)) (e : Error S) (rest : List (CloseEvent S))
    → c.called ≡ false
    → is_empty c.funcs ≡ false
    → (close_all c (map closing_error es ++ (context_done e ∷ rest))).0
      ≡ some (some (or_first (first es) e))
unfolding close_all
close_all_cut c [] e rest n f = rw (n, f) refl
close_all_cut c (x ∷ es) e rest n f = rw (n, f) (collect-errors x es (context_done e ∷ rest))

first-none : {A : Type 0} (xs : List A) → first xs ≡ none → xs ≡ []
first-none [] h = refl
first-none (x ∷ xs) h = absurd (ground arith)

-- What all the goroutines put on the channel.
abbrev pub failures : {S : Type 0} → List (Result (Fault (Error S)) (Unit {0})) → List (Error S)
failures [] = []
failures (r ∷ rs) = report r ++ failures rs

failures-append :
    {S : Type 0} (rs ss : List (Result (Fault (Error S)) (Unit {0})))
    → failures (rs ++ ss) ≡ failures rs ++ failures ss
failures-append [] ss = refl
failures-append (r ∷ rs) ss =
    ap (λ l. report r ++ l) (failures-append rs ss)
    ∙ sym (append_assoc (report r) (failures rs) (failures ss))

report-ok : {S : Type 0} (r : Result (Fault (Error S)) (Unit {0})) → report r ≡ [] → r ≡ ok tt
unfolding report
report-ok (ok _) h = refl
report-ok (err (failed e)) h = absurd (ground arith)
report-ok (err (panicked s)) h = absurd (ground arith)

both-nil : {A : Type 0} (xs ys : List A) → xs ++ ys ≡ [] → (xs ≡ []) × (ys ≡ [])
both-nil [] ys h = (refl, h)
both-nil (x ∷ xs) ys h = absurd (ground arith)

module _ {F S : Type 0} (run : F → Result (Fault (Error S)) (Unit {0})) where
  failures-started :
      (fs : List F) → failures (map run (started fs)) ≡ [] → All (λ f. run f ≡ ok tt) fs
  unfolding started
  failures-started [] h = tt
  failures-started (f ∷ fs) h =
      let split =
        sym (failures-append (map run (started fs)) (run f ∷ []))
        ∙ (ap failures (sym (map-append run (started fs) (f ∷ []))) ∙ h) in
      let (before, last) =
        both-nil (failures (map run (started fs))) (report (run f) ++ []) split in
      (report-ok (run f) (sym (append-nil (report (run f))) ∙ last), failures-started fs before)

  started-failures :
      (fs : List F) → All (λ f. run f ≡ ok tt) fs → failures (map run (started fs)) ≡ []
  unfolding started report
  started-failures [] h = refl
  started-failures (f ∷ fs) (e, h) =
      ap failures (map-append run (started fs) (f ∷ []))
      ∙ (failures-append (map run (started fs)) (run f ∷ []) ∙ rw (started-failures fs h, e) refl)

  -- A first shutdown of some functions that is not cut short, in whatever order their errors
  -- arrive, returns nil exactly when all of them returned nil: a panic counts as an error.
  pub close_all-nil :
      (c : Closer F) (es : List (Error S))
      → c.called ≡ false
      → is_empty c.funcs ≡ false
      → Perm es (failures (map run (started c.funcs)))
      → ((close_all c (map closing_error es ++ (channel_closed ∷ []))).0 ≡ some none)
        ↔ All (λ f. run f ≡ ok tt) c.funcs
  close_all-nil c es n f arrived =
      let (result, _, _) = close_all_ok c es [] [] n f in
      (
        λ nil.
            let none_arrived : Perm [] (failures (map run (started c.funcs))) =
              subst (λ l. Perm l (failures (map run (started c.funcs))))
                (first-none es (ground arith)) arrived in
            failures-started c.funcs (sym (nil-eq none_arrived)),
        λ all.
            let none_failed : Perm es [] = subst (Perm es) (started-failures c.funcs all) arrived in
            result ∙ ap (λ l. some (first l)) (eq-nil none_failed),
      )

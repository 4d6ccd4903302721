-- ===== src/Clients/Racing.antt =====
-- Threads that all ask for the client.
use cognition_devin_automati.Prelude.{
  ℕ, List, ◌∷◌, [], Option, ◌+◌, suc, ◌≡◌, ◌≤◌, ◌⊎◌, arith, is_some, some, zero, inl, none, ◌∙◌,
  refl, inr,
}
use cognition_devin_automati.Prelude.Threads.{interleave, step_at}
use cognition_devin_automati.World.{Except, ok}
use cognition_devin_automati.Clients.{
  Caller, Registry, unbuilt, take_step, calling, building, returned, failed, waiting, locked,
  returning,
}
use cognition_devin_automati.Clients.Single.{
  in_lock, holds_client, one_if, holds_client-in_lock, IsFirst, Fits, take_step-Fits,
}
use cognition_devin_automati.Prelude.Lists.{All, All-map}

abbrev pub sum_of : (Caller → ℕ) → List Caller → ℕ
sum_of f [] = 0
sum_of f (c ∷ cs) = f c + sum_of f cs

abbrev pub callers : ℕ → List Caller
callers zero = []
callers (suc n) = calling ∷ callers n

module _ (construct : Except (Unit {0})) where
  -- The same for all callers of a list, beside others.
  pub record AllFit (others pending : ℕ) (cs : List Caller) (r : Registry) : Type 0 where
    pub exclusive : sum_of in_lock cs + others ≡ one_if r.lock
    counted : r.built ≡ sum_of holds_client cs + pending + one_if (is_some r.client)
    once : r.built ≤ 1
    inside : pending ≤ others
    client_first : (k : ℕ) → r.client ≡ some k → (k ≡ 0) × (construct ≡ ok tt)
    callers_first : All (IsFirst construct r.client) cs

  IsFirst-kept :
      (client client' : Option ℕ) (c : Caller)
      → (client' ≡ client) ⊎ (client' ≡ some 0)
      → IsFirst construct client c
      → IsFirst construct client' c
  IsFirst-kept client client' calling kept h = tt
  IsFirst-kept client client' waiting kept h = tt
  IsFirst-kept client client' locked kept h = tt
  IsFirst-kept client client' (building k) kept h = h
  IsFirst-kept client client' returning (inl same) h = (same ∙ h.0, h.1)
  IsFirst-kept client client' returning (inr first) h = (first, h.1)
  IsFirst-kept client client' (returned o) kept h = h
  IsFirst-kept client client' (failed e) kept h = h

  sum-inside : (cs : List Caller) → sum_of holds_client cs ≤ sum_of in_lock cs
  sum-inside [] = omega arith
  sum-inside (c ∷ cs) = omega (arith, holds_client-in_lock c, sum-inside cs)

  pub step_at-AllFit :
      (i : ℕ) (cs : List Caller) (r : Registry) {others pending : ℕ}
      → AllFit others pending cs r
      → let n = step_at (take_step construct) i cs r in
        AllFit others pending n.0 n.1 × ((n.1.client ≡ r.client) ⊎ (n.1.client ≡ some 0))
  unfolding step_at
  step_at-AllFit i [] r f = (f, inl refl)
  step_at-AllFit zero (c ∷ cs) r {others} {pending} f =
      let fits : Fits construct (sum_of in_lock cs + others) (sum_of holds_client cs + pending) c
          r =
        record {
          exclusive = omega (arith, f.exclusive);
          counted = omega (arith, f.counted);
          once = f.once;
          inside = omega (arith, f.inside, sum-inside cs);
          client_first = f.client_first;
          caller_first = f.callers_first.0;
        } in
      let n = take_step-Fits construct c r fits in
      (
        record {
          exclusive = omega (arith, n.0.exclusive);
          counted = omega (arith, n.0.counted);
          once = n.0.once;
          inside = f.inside;
          client_first = n.0.client_first;
          callers_first =
              (n.0.caller_first, All-map (λ x. IsFirst-kept r.client _ x n.1) cs f.callers_first.1);
        },
        n.1,
      )
  step_at-AllFit (suc i) (c ∷ cs) r {others} {pending} f =
      let fits : AllFit (in_lock c + others) (holds_client c + pending) cs r = record {
        exclusive = omega (arith, f.exclusive);
        counted = omega (arith, f.counted);
        once = f.once;
        inside = omega (arith, f.inside, holds_client-in_lock c);
        client_first = f.client_first;
        callers_first = f.callers_first.1;
      } in
      let n = step_at-AllFit i cs r fits in
      (
        record {
          exclusive = omega (arith, n.0.exclusive);
          counted = omega (arith, n.0.counted);
          once = n.0.once;
          inside = f.inside;
          client_first = n.0.client_first;
          callers_first = (IsFirst-kept r.client _ c n.1 f.callers_first.0, n.0.callers_first);
        },
        n.1,
      )

  pub interleave-AllFit :
      (schedule : List ℕ) (cs : List Caller) (r : Registry)
      → AllFit 0 0 cs r
      → let n = interleave (take_step construct) schedule cs r in AllFit 0 0 n.0 n.1
  unfolding interleave
  interleave-AllFit [] cs r f = f
  interleave-AllFit (i ∷ schedule) cs r f =
      interleave-AllFit schedule _ _ (step_at-AllFit i cs r f).0

  unbuilt-AllFit :
      (n : ℕ)
      → (sum_of in_lock (callers n) ≡ 0)
      → (sum_of holds_client (callers n) ≡ 0)
      → All (IsFirst construct none) (callers n)
      → AllFit 0 0 (callers n) unbuilt
  unfolding unbuilt
  unbuilt-AllFit n unlocked unheld first = record {
    exclusive = omega (arith, unlocked);
    counted = omega (arith, unheld);
    once = omega arith;
    inside = omega arith;
    client_first = λ k h. cc h;
    callers_first = first;
  }

  callers_idle :
      (n : ℕ)
      → ((sum_of in_lock (callers n) ≡ 0) × (sum_of holds_client (callers n) ≡ 0))
        × All (IsFirst construct none) (callers n)
  callers_idle zero = ((refl, refl), tt)
  callers_idle (suc n) =
      let rest = callers_idle n in
      ((omega (arith, rest.0.0), omega (arith, rest.0.1)), (tt, rest.1))

  pub callers-AllFit : (n : ℕ) → AllFit 0 0 (callers n) unbuilt
  callers-AllFit n = let idle = callers_idle n in unbuilt-AllFit n idle.0.0 idle.0.1 idle.1

  -- However many threads ask for the client first, and however their steps interleave, at most one
  -- client is built; every call that returns gives this one, and does so only where the constructor
  -- succeeds; and every call that raises raises what the constructor does.
  pub interleave_one_client :
      (n : ℕ) (schedule : List ℕ)
      → let t = interleave (take_step construct) schedule (callers n) unbuilt in
        (t.1.built ≤ 1) × All (IsFirst construct t.1.client) t.0
  interleave_one_client n schedule =
      let f = interleave-AllFit schedule (callers n) unbuilt (callers-AllFit n) in
      (f.once, f.callers_first)

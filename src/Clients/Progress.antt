-- ===== src/Clients/Progress.antt =====
-- The statements that threads asking for the client have ahead of them.
use cognition_devin_automati.Prelude.{
  ℕ, List, ◌≤◌, ◌<◌, ◌≡◌, Bool-cases, false, arith, [], is_some, ◌∷◌, inl, suc, inr, ◌==◌, ==_iff,
  zero,
}
use cognition_devin_automati.Prelude.Threads.{interleave, step_at}
use cognition_devin_automati.Clients.{
  Caller, building, build, take_step, Registry, locked, calling, unbuilt, waiting, returned,
  returning, failed,
}
use cognition_devin_automati.World.{Except, raised, ok}
use cognition_devin_automati.Clients.Racing.{
  sum_of, AllFit, callers, interleave-AllFit, callers-AllFit, step_at-AllFit,
}
use cognition_devin_automati.Clients.Single.{in_lock}

-- The statements that a caller has ahead of it, at most.
abbrev pub ahead : Caller → ℕ
ahead calling = 5
ahead waiting = 4
ahead locked = 3
ahead (building k) = 2
ahead returning = 1
ahead _ = 0

module _ (construct : Except (Unit {0})) where
  build-ahead : (answer : Except (Unit {0})) (r : Registry) → ahead (build answer r).0 ≤ 2
  unfolding build
  build-ahead (raised e) r = omega arith
  build-ahead (ok _) r = omega arith

  locked-ahead : (r : Registry) → ahead (take_step construct locked r).0 ≤ 2
  unfolding take_step
  locked-ahead r = elim (Bool-cases (is_some r.client)) [
    | inl held ↦ rw held (omega arith)
    | inr absent ↦ rw absent (build-ahead construct r)
  ]

  in_lock-ahead :
      (c : Caller) (r : Registry) → 0 < in_lock c → ahead (take_step construct c r).0 < ahead c
  in_lock-ahead calling r h = omega (arith, h)
  in_lock-ahead waiting r h = omega (arith, h)
  in_lock-ahead locked r h = omega (arith, locked-ahead r)
  in_lock-ahead (building k) r h = unfold take_step in omega arith
  in_lock-ahead returning r h = omega (arith, h)
  in_lock-ahead (returned o) r h = omega (arith, h)
  in_lock-ahead (failed e) r h = omega (arith, h)

  unlocked-ahead :
      (c : Caller) (r : Registry)
      → r.lock ≡ false
      → 0 < ahead c
      → ahead (take_step construct c r).0 < ahead c
  unlocked-ahead calling r free h = elim (Bool-cases (is_some r.client)) [
    | inl held ↦ unfold take_step in rw held (omega arith)
    | inr absent ↦ unfold take_step in rw absent (omega arith)
  ]
  unlocked-ahead waiting r free h = unfold take_step in rw free (omega arith)
  unlocked-ahead locked r free h = omega (arith, locked-ahead r)
  unlocked-ahead (building k) r free h = unfold take_step in omega arith
  unlocked-ahead returning r free h = unfold take_step in omega arith
  unlocked-ahead (returned o) r free h = omega (arith, h)
  unlocked-ahead (failed e) r free h = omega (arith, h)

  -- Some caller has a step that shortens the way.
  CanStep : List Caller → Registry → Type 0
  CanStep cs r = (i : ℕ) × (sum_of ahead (step_at (take_step construct) i cs r).0 < sum_of ahead cs)

  first_of :
      (f : Caller → ℕ) (cs : List Caller) (r : Registry)
      → ((c : Caller) → 0 < f c → ahead (take_step construct c r).0 < ahead c)
      → 0 < sum_of f cs
      → CanStep cs r
  unfolding step_at CanStep
  first_of f [] r shorter h = absurd (omega (arith, h))
  first_of f (c ∷ cs) r shorter h = elim (Bool-cases (f c == 0)) [
    | inl idle ↦
        let rest = first_of f cs r shorter (omega (arith, h, (==_iff (f c) 0).0 idle)) in
        (suc rest.0, omega (arith, rest.1))
    | inr busy ↦ (0, omega (arith, shorter c (ground arith)))
  ]

  can_step :
      (cs : List Caller) (r : Registry)
      → AllFit construct 0 0 cs r
      → 0 < sum_of ahead cs
      → CanStep cs r
  can_step cs r f h = elim (Bool-cases r.lock) [
    | inl taken ↦ first_of in_lock cs r (λ c k. in_lock-ahead c r k) (ground (arith, f.exclusive))
    | inr free ↦ first_of ahead cs r (λ c k. unlocked-ahead c r free k) h
  ]

  can_finish :
      (fuel : ℕ) (cs : List Caller) (r : Registry)
      → sum_of ahead cs ≤ fuel
      → AllFit construct 0 0 cs r
      → (schedule : List ℕ) × (sum_of ahead (interleave (take_step construct) schedule cs r).0 ≡ 0)
  unfolding interleave CanStep
  can_finish zero cs r enough f = ([], omega (arith, enough))
  can_finish (suc fuel) cs r enough f = elim (Bool-cases (sum_of ahead cs == 0)) [
    | inl over ↦ ([], (==_iff _ 0).0 over)
    | inr left ↦
        let step = can_step cs r f (ground arith) in
        let rest =
          can_finish fuel _ _ (omega (arith, step.1, enough))
            (step_at-AllFit construct step.0 cs r f).0 in
        (step.0 ∷ rest.0, rest.1)
  ]

  -- The threads that ask for the client never lock each other out: wherever a schedule has brought
  -- them, there is one that goes on from there and after which every call has returned or raised.
  pub interleave_can_finish :
      (n : ℕ) (schedule : List ℕ)
      → let t = interleave (take_step construct) schedule (callers n) unbuilt in
        (rest : List ℕ) × (sum_of ahead (interleave (take_step construct) rest t.0 t.1).0 ≡ 0)
  interleave_can_finish n schedule =
      let t = interleave (take_step construct) schedule (callers n) unbuilt in
      can_finish (sum_of ahead t.0) t.0 t.1 (omega arith)
        (interleave-AllFit construct schedule _ _ (callers-AllFit construct n))

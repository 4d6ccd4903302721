-- ===== src/Clients/Single.antt =====
-- One step of a thread that asks for the client, in a registry that others use.
use mathlib.Core.Option.{some-injective}
use cognition_devin_automati.Prelude.{
  ℕ, Bool, ◌≤◌, Option, if◌then◌else◌, arith, ◌≡◌, ◌+◌, is_some, some, false, refl, ◌⊎◌, inl, inr,
  true, Bool-cases, ap, subst, sym, none, ◌∙◌,
}
use cognition_devin_automati.Clients.{
  Caller, building, Registry, build, locked, returned, failed, calling, waiting, returning,
  take_step,
}
use cognition_devin_automati.World.{Except, ok, raised}

-- Callers in the lock, and callers whose client is built and not assigned.
abbrev pub in_lock : Caller → ℕ
in_lock locked = 1
in_lock (building k) = 1
in_lock _ = 0

abbrev pub holds_client : Caller → ℕ
holds_client (building k) = 1
holds_client _ = 0

pub holds_client-in_lock : (c : Caller) → holds_client c ≤ in_lock c
holds_client-in_lock calling = omega arith
holds_client-in_lock waiting = omega arith
holds_client-in_lock locked = omega arith
holds_client-in_lock (building k) = omega arith
holds_client-in_lock returning = omega arith
holds_client-in_lock (returned o) = omega arith
holds_client-in_lock (failed e) = omega arith

abbrev pub one_if : Bool → ℕ
one_if b = if b then 1 else 0

module _ (construct : Except (Unit {0})) where
  -- What a caller holds or returns is the first client that was built, and it fails as the
  -- constructor does.
  abbrev pub IsFirst : Option ℕ → Caller → Type 0
  IsFirst client (building k) = (k ≡ 0) × (construct ≡ ok tt)
  IsFirst client returning = (client ≡ some 0) × (construct ≡ ok tt)
  IsFirst client (returned o) = (o ≡ some 0) × (construct ≡ ok tt)
  IsFirst client (failed e) = construct ≡ raised e
  IsFirst client _ = Unit

  -- A registry with one caller, where `others` stand in the lock and `pending` of them hold a
  -- client.
  pub record Fits (others pending : ℕ) (c : Caller) (r : Registry) : Type 0 where
    pub exclusive : in_lock c + others ≡ one_if r.lock
    pub counted : r.built ≡ holds_client c + pending + one_if (is_some r.client)
    pub once : r.built ≤ 1
    pub inside : pending ≤ others
    pub client_first : (k : ℕ) → r.client ≡ some k → (k ≡ 0) × (construct ≡ ok tt)
    pub caller_first : IsFirst r.client c

  build-Fits :
      {others pending : ℕ} (answer : Except (Unit {0})) (r : Registry)
      → construct ≡ answer
      → is_some r.client ≡ false
      → Fits others pending locked r
      → let n = build answer r in Fits others pending n.0 n.1 × (n.1.client ≡ r.client)
  unfolding build
  build-Fits (raised e) r e≡ absent f = (
    record {
      exclusive = ground (arith, f.exclusive);
      counted = f.counted;
      once = f.once;
      inside = f.inside;
      client_first = f.client_first;
      caller_first = e≡;
    },
    refl,
  )
  build-Fits (ok _) r e≡ absent f = (
    record {
      exclusive = f.exclusive;
      counted = omega (arith, f.counted);
      once = ground (arith, f.exclusive, f.counted, f.inside, absent);
      inside = f.inside;
      client_first = f.client_first;
      caller_first = (ground (arith, f.exclusive, f.counted, f.inside, absent), e≡);
    },
    refl,
  )

  held_first :
      (client : Option ℕ)
      → is_some client ≡ true
      → ((k : ℕ) → client ≡ some k → (k ≡ 0) × (construct ≡ ok tt))
      → (client ≡ some 0) × (construct ≡ ok tt)
  held_first none held first = cc held
  held_first (some k) held first =
      let known = first k refl in (ap (λ (n : ℕ). some n) known.0, known.1)

  -- A caller that goes on with the registry as it is.
  goes_on :
      {others pending : ℕ} {c : Caller} (c' : Caller) {r : Registry}
      → Fits others pending c r
      → in_lock c' ≡ in_lock c
      → holds_client c' ≡ holds_client c
      → IsFirst r.client c'
      → Fits others pending c' r
  goes_on c' f lock held first = record {
    exclusive = omega (arith, lock, f.exclusive);
    counted = omega (arith, held, f.counted);
    once = f.once;
    inside = f.inside;
    client_first = f.client_first;
    caller_first = first;
  }

  abbrev Next : ℕ → ℕ → Registry → Caller × Registry → Type 0
  Next others pending r n =
      Fits others pending n.0 n.1 × ((n.1.client ≡ r.client) ⊎ (n.1.client ≡ some 0))

  -- A step keeps what the registry and the caller meet, and changes the client only to the first.
  pub take_step-Fits :
      {others pending : ℕ} (c : Caller) (r : Registry)
      → Fits others pending c r
      → Next others pending r (take_step construct c r)
  unfolding take_step
  take_step-Fits {others} {pending} calling r f = elim (Bool-cases (is_some r.client)) [
    | inl held ↦
        subst (λ b. Next others pending r (if b then (returning, r) else (waiting, r))) (sym held)
          (goes_on returning f refl refl (held_first r.client held f.client_first), inl refl)
    | inr absent ↦
        subst (λ b. Next others pending r (if b then (returning, r) else (waiting, r))) (sym absent)
          (goes_on waiting f refl refl tt, inl refl)
  ]
  take_step-Fits {others} {pending} waiting r f = elim (Bool-cases r.lock) [
    | inl taken ↦
        subst
          (λ b.
            Next others pending r (if b then (waiting, r) else (locked, record r { lock = true })))
          (sym taken) (f, inl refl)
    | inr free ↦
        subst
          (λ b.
            Next others pending r (if b then (waiting, r) else (locked, record r { lock = true })))
          (sym free)
          (
            record {
              exclusive = ground (arith, f.exclusive);
              counted = f.counted;
              once = f.once;
              inside = f.inside;
              client_first = f.client_first;
              caller_first = tt;
            },
            inl refl,
          )
  ]
  take_step-Fits {others} {pending} locked r f = elim (Bool-cases (is_some r.client)) [
    | inl held ↦
        subst
          (λ b.
            Next others pending r
              (if b then (returning, record r { lock = false }) else build construct r))
          (sym held)
          (
            record {
              exclusive = ground (arith, f.exclusive);
              counted = f.counted;
              once = f.once;
              inside = f.inside;
              client_first = f.client_first;
              caller_first = held_first r.client held f.client_first;
            },
            inl refl,
          )
    | inr absent ↦
        let built = build-Fits construct r refl absent f in
        subst
          (λ b.
            Next others pending r
              (if b then (returning, record r { lock = false }) else build construct r))
          (sym absent) (built.0, inl built.1)
  ]
  take_step-Fits (building k) r f = (
    record {
      exclusive = ground (arith, f.exclusive);
      counted = ground (arith, f.counted, f.once);
      once = f.once;
      inside = f.inside;
      client_first = λ j same. (sym (some-injective k j same) ∙ f.caller_first.0, f.caller_first.1);
      caller_first = (ap (λ (n : ℕ). some n) f.caller_first.0, f.caller_first.1);
    },
    inr (ap (λ (n : ℕ). some n) f.caller_first.0),
  )
  take_step-Fits returning r f = (goes_on (returned r.client) f refl refl f.caller_first, inl refl)
  take_step-Fits (returned o) r f = (f, inl refl)
  take_step-Fits (failed e) r f = (f, inl refl)

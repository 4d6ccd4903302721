-- ===== src/Health/Ready.antt =====
-- When the service calls itself healthy.
use cognition_devin_automati.Settings.{Settings}
use cognition_devin_automati.Devin.Transport.{Finish, returned, gave_up, crashed}
use cognition_devin_automati.Health.{
  probe, starts_poller, probed, devin_health, healthz, is_configured, not_down,
}
use cognition_devin_automati.Devin.Client.{healthcheck}
use cognition_devin_automati.Prelude.{
  Bool, ◌≡◌, false, ◌↔◌, ◌⊎◌, true, ℕ, Bool-cases, inr, arith, refl, ◌&&◌, inl,
}
use cognition_devin_automati.World.{Except, ok, raised}
use cognition_devin_automati.Handlers.{get_client}
use cognition_devin_automati.Prelude.Texts.{nonempty}

-- What Devin's part of the report stands for.
abbrev pub MayWork : Settings → Finish → Type 0
MayWork cfg answer =
    (starts_poller cfg ≡ false)
    ⊎ ((get_client cfg ≡ ok tt) × ((code : ℕ) × (answer ≡ returned code)))

probe_up :
    (client : Except (Unit {0})) (answer : Finish)
    → not_down (probe client answer) ≡ true
    → (client ≡ ok tt) × ((code : ℕ) × (answer ≡ returned code))
unfolding probe probed healthcheck not_down
probe_up (raised e) answer h = cc
probe_up (ok _) (returned code) h = (refl, (code, refl))
probe_up (ok _) (gave_up last_exc) h = cc
probe_up (ok _) (crashed e) h = cc

up_probe :
    (client : Except (Unit {0})) (answer : Finish) (code : ℕ)
    → client ≡ ok tt
    → answer ≡ returned code
    → not_down (probe client answer) ≡ true
unfolding probe probed healthcheck not_down
up_probe client answer code e f = rw e (rw f refl)

module _ (cfg : Settings) (answer : Finish) where
  devin_health_iff : (not_down (devin_health cfg answer) ≡ true) ↔ MayWork cfg answer
  unfolding devin_health is_configured starts_poller not_down
  devin_health_iff = elim (Bool-cases (nonempty cfg.devin_api_key && nonempty cfg.devin_org_id)) [
    | inr bare ↦ rw bare ((λ h. inl refl), (λ h. refl))
    | inl configured ↦ rw configured (
      (λ h. inr (probe_up (get_client cfg) answer h)),
      (λ h. elim h [
        | inl off ↦ cc
        | inr (client, (code, e)) ↦ up_probe (get_client cfg) answer code client e
      ]),
    )
  ]

  -- GET /healthz answers 200 exactly when the database answered and either no poller is started,
  -- since a credential is missing, or the client accepts both credentials and Devin answered the
  -- probe; in every other case it answers 503.
  healthz-ok_iff :
      (db_ok : Bool)
      → (((healthz cfg db_ok answer).status_code ≡ 200) ↔ ((db_ok ≡ true) × MayWork cfg answer))
        × (((healthz cfg db_ok answer).status_code ≡ 200)
            ⊎ ((healthz cfg db_ok answer).status_code ≡ 503))
  unfolding healthz
  healthz-ok_iff db_ok = elim (Bool-cases db_ok) [
    | inr broken ↦ rw broken (((λ h. absurd (omega arith)), (λ h. cc)), inr refl)
    | inl fine ↦ elim (Bool-cases (not_down (devin_health cfg answer))) [
      | inl up ↦ rw fine (rw up (((λ h. (refl, devin_health_iff.0 up)), (λ h. refl)), inl refl))
      | inr down ↦
          rw fine
            (rw down (((λ h. absurd (omega arith)), (λ h. cc (devin_health_iff.1 h.1))), inr refl))
    ]
  ]

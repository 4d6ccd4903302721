-- ===== src/Admin/Locks.antt =====
-- What the token gate of app/routes/admin.py keeps out, and what a replay can do.
use cognition_devin_automati.Events.{get}
use cognition_devin_automati.Settings.{Settings}
use cognition_devin_automati.World.{Env, EventRow, State}
use cognition_devin_automati.Webhook.{Crypto, Job, process}
use cognition_devin_automati.Admin.{
  replay, replay_row, replay_gated, Reply, reset, require_token, job_of,
}
use cognition_devin_automati.Prelude.{
  Option, some, ◌+◌, ◌≡◌, false, none, ◌≤◌, ◌⊎◌, or_else, [], inl, inr, Bool-cases, refl,
}
use cognition_devin_automati.Prelude.Texts.{Text, nonempty, truthy}
use cognition_devin_automati.Sessions.Unique.{IsValid}
use cognition_devin_automati.Runs.{Run, here}
use cognition_devin_automati.Runs.Invariants.{creates, Run-IsValid, Run-paid}
use cognition_devin_automati.Runs.Events.{process-Run}
use cognition_devin_automati.Prelude.Lists.{length}

module _ (cfg : Settings) (env : Env) (crypto : Crypto) where
  -- What runs after a replay: its background task, if it left one.
  abbrev pub after : Option Job → State → State
  after job s = elim job [ none ↦ s | some j ↦ process cfg env j s ]

  replayed-Run :
      (row : Option EventRow) (s : State) → Run cfg.max_fix_attempts s (after (replay_row row).1 s)
  unfolding replay_row
  replayed-Run none s = here
  replayed-Run (some row) s = process-Run cfg env (job_of row) s

  gated-Run :
      (refusal : Option Reply) (delivery : Text) (s : State)
      → Run cfg.max_fix_attempts s (after (replay_gated refusal delivery s).1 s)
  unfolding replay_gated
  gated-Run (some refusal) delivery s = here
  gated-Run none delivery s = replayed-Run (get delivery s.events) s

  replay-Run :
      (delivery : Text) (provided : Option Text) (s : State)
      → Run cfg.max_fix_attempts s (after (replay cfg crypto delivery provided s).1 s)
  unfolding replay
  replay-Run delivery provided s = gated-Run (require_token cfg crypto provided) delivery s

  -- A replay, which goes round the record of deliveries, together with its background task keeps
  -- the work keys and ids of the table unique, and sends no more requests for paid sessions than it
  -- adds rows.
  pub replay_safe :
      (delivery : Text) (provided : Option Text) (s : State)
      → IsValid s.sessions
      → let t = after (replay cfg crypto delivery provided s).1 s in
        IsValid t.sessions
        × (creates t.trace + length s.sessions.rows ≤ creates s.trace + length t.sessions.rows)
  replay_safe delivery provided s v =
      let run = replay-Run delivery provided s in (Run-IsValid run v, Run-paid run)

  -- With no token configured, or with a token that does not compare equal to the configured one,
  -- a replay leaves no task and a reset changes nothing.
  locked :
      (delivery : Text) (provided : Option Text) (s : State)
      → (nonempty cfg.admin_token ≡ false)
        ⊎ (crypto.compare_digest (or_else provided []) cfg.admin_token ≡ false)
      → ((replay cfg crypto delivery provided s).1 ≡ none) × ((reset cfg crypto provided s).1 ≡ s)
  unfolding replay reset require_token
  locked delivery provided s (inl missing) = rw missing (refl, refl)
  locked delivery provided s (inr wrong) = elim (Bool-cases (nonempty cfg.admin_token)) [
    | inr missing ↦ rw missing (refl, refl)
    | inl given ↦
        rw (given, wrong)
          (elim (Bool-cases (truthy provided)) [
            | inl shown ↦ rw shown (refl, refl)
            | inr hidden ↦ rw hidden (refl, refl)
          ])
  ]

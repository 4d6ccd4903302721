-- ===== src/Races/Overshoot.antt =====
-- Two workers that both count before either of them inserts.
use cognition_devin_automati.Settings.{Settings}
use cognition_devin_automati.Sessions.Claims.{claimed, is_taken, try_reserve-free}
use cognition_devin_automati.World.{Env, Issue, State}
use cognition_devin_automati.Handlers.Security.{security_reservation, security_key}
use cognition_devin_automati.Prelude.Threads.{interleave, step_at}
use cognition_devin_automati.Races.{advance, inserted, entered, counted, cleared, holds_row}
use cognition_devin_automati.Sessions.{
  count_active, Table, reserved_row, count_started_today, has_key, SessionRow, Reservation,
}
use cognition_devin_automati.Prelude.{ℕ, ◌<◌, suc, ◌≡◌, arith, false, ◌∷◌, [], refl, lt→leb_false}
use cognition_devin_automati.Status.{is_active}
use cognition_devin_automati.Prelude.Lists.{any_by, count_by, count_by-append, any_by-append}
use cognition_devin_automati.Prelude.Texts.{Text, text_eq}

pub claimed_free :
    (r : Reservation) (key : Text) (now : ℕ) (t : Table)
    → is_taken key t ≡ false
    → text_eq r.work_key key ≡ false
    → is_taken key (claimed r now t) ≡ false
unfolding claimed reserved_row any_by has_key
claimed_free r key now t free apart =
    rw (any_by-append (has_key key) t.rows _) (rw free (rw apart refl))

count_active-claimed :
    (r : Reservation) (now : ℕ) (t : Table) → count_active (claimed r now t) ≡ suc (count_active t)
unfolding claimed count_active reserved_row is_active count_by
count_active-claimed r now t = omega (
  arith,
  count_by-append (λ (x : SessionRow). is_active x.status) t.rows
      (reserved_row r t.next_id now ∷ []),
)

module _ (cfg : Settings) (env : Env) where
  advance-cleared :
      (issue : Issue) (s : State)
      → is_taken (security_key cfg issue) s.sessions ≡ false
      → advance cfg env (cleared issue) s ≡ (
        holds_row issue s.sessions.next_id,
        record s { sessions = claimed (security_reservation cfg issue) (env.now s) s.sessions },
      )
  unfolding advance inserted security_reservation
  advance-cleared issue s free =
      rw (try_reserve-free (security_reservation cfg issue) (env.now s) s.sessions free) refl

  advance-entered :
      (issue : Issue) (s : State)
      → count_active s.sessions < cfg.max_concurrent_sessions
      → advance cfg env (entered issue) s ≡ (counted issue, s)
  unfolding advance
  advance-entered issue s room = rw (lt→leb_false _ _ room) refl

  advance-counted :
      (issue : Issue) (s : State)
      → count_started_today (env.now s) s.sessions < cfg.max_sessions_per_day
      → advance cfg env (counted issue) s ≡ (cleared issue, s)
  unfolding advance
  advance-counted issue s left = rw (lt→leb_false _ _ left) refl

  -- The cap on concurrent sessions is checked before the row is inserted, so it can be passed: from
  -- a state with one free slot, room under the daily cap and neither work key claimed, two threads
  -- with different work keys that each count before the other inserts leave one active session more
  -- than MAX_CONCURRENT_SESSIONS.
  pub interleave_overshoot :
      (first second : Issue) (s : State)
      → suc (count_active s.sessions) ≡ cfg.max_concurrent_sessions
      → count_started_today (env.now s) s.sessions < cfg.max_sessions_per_day
      → is_taken (security_key cfg first) s.sessions ≡ false
      → is_taken (security_key cfg second) s.sessions ≡ false
      → text_eq (security_key cfg first) (security_key cfg second) ≡ false
      → count_active
          (interleave
            (advance cfg env)
            (0 ∷ 1 ∷ 0 ∷ 1 ∷ 0 ∷ 1 ∷ [])
            (entered first ∷ entered second ∷ [])
            s).1.sessions
        ≡ suc cfg.max_concurrent_sessions
  unfolding interleave step_at
  interleave_overshoot first second s slot left free free' apart =
      let now = env.now s in
      let r = security_reservation cfg first in
      let t = claimed r now s.sessions in
      rw (advance-entered first s (omega arith)) (
        rw (advance-entered second s (omega arith)) (
          rw (advance-counted first s left) (
            rw (advance-counted second s left) (
              rw (advance-cleared first s free) (
                rw
                  (advance-cleared second (record s { sessions = t })
                    (claimed_free r (security_key cfg second) now s.sessions free'
                      (unfold security_reservation in apart)))
                  (omega (
                    arith,
                    count_active-claimed (security_reservation cfg second)
                        (env.now (record s { sessions = t })) t,
                    count_active-claimed r now s.sessions,
                  )))))))

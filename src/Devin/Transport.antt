-- ===== src/Devin/Transport.antt =====
-- DevinTransport.request of app/devin/http.py: retries with backoff.
-- One attempt, as httpx gives it: a status code with its Retry-After header, a text, or an
-- httpx.HTTPError with its message.
use Prim.Native.Nat.{◌^◌}
use cognition_devin_automati.Prelude.{
  ℕ, Option, List, some, suc, none, ◌≡◌, inr, ◌∷◌, [], ◌<◌, arith, ◌≤◌, inl, zero, ◌+◌, ◌-◌, refl,
  if◌then◌else◌, ◌==◌, leb, ◌&&◌, ltb, ◌≢◌, false, Bool-cases, sym, ◌∙◌, ==_of_eq, ap, ==_iff,
}
use cognition_devin_automati.Prelude.Texts.{Text}
use cognition_devin_automati.Prelude.Lists.{length}
use cognition_devin_automati.World.{Except, Exn, raised, ok}

pub data Attempt : Type 0 where
  reply : ℕ → Option Text → Attempt
  http_error : Text → Attempt

-- What the call ends in: the response's code, the RuntimeError, with the last httpx.HTTPError, or an
-- exception of `float` or `time.sleep`, which the loop does not catch.
pub data Finish : Type 0 where
  returned : ℕ → Finish
  gave_up : Option Text → Finish
  crashed : Exn → Finish

-- The end, the number of requests that were sent, and the lengths of time slept, the last first.
pub record Transcript (Seconds : Type 0) : Type 0 where
  pub finish : Finish
  pub sent : ℕ
  pub sleeps : List Seconds

-- What the loop does after an attempt: return, or sleep, keeping an error or the last one, or raise.
pub data Verdict (Seconds : Type 0) : Type 0 where
  done : ℕ → Verdict Seconds
  again : Seconds → Option Text → Verdict Seconds
  crash : Exn → Verdict Seconds

-- `raise_for_status` is httpx's: the message of its HTTPStatusError for a code, if it raises.
-- `float` is Python's, of a header, with what `time.sleep` takes: a date, a negative or an infinite
-- number is none of them. `seconds` is a whole number of them.
module _ {Seconds : Type 0} (seconds : ℕ → Seconds) (float : Text → Except Seconds)
    (raise_for_status : ℕ → Option Text) where
  unfoldable pub raised_or_done : ℕ → ℕ → Option Text → Verdict Seconds
  raised_or_done attempt code none = done code
  raised_or_done attempt code (some message) = again (seconds (2 ^ attempt)) (some message)

  -- The answer to 429, by its header and what `float` makes of it.
  unfoldable pub slept_or_crash : Option Text → Except Seconds → Verdict Seconds
  slept_or_crash last (raised e) = crash e
  slept_or_crash last (ok delay) = again delay last

  unfoldable pub rate_limited : ℕ → Option Text → Option Text → Verdict Seconds
  unfolding slept_or_crash
  rate_limited attempt last none = again (seconds (2 ^ attempt)) last
  rate_limited attempt last (some header) = slept_or_crash last (float header)

  unfoldable pub judge : ℕ → Option Text → Attempt → Verdict Seconds
  unfolding raised_or_done rate_limited
  judge attempt last (http_error message) = again (seconds (2 ^ attempt)) (some message)
  judge attempt last (reply code retry_after) =
      if code == 429
      then rate_limited attempt last retry_after
      else if leb 500 code && ltb code 600
      then again (seconds (2 ^ attempt)) last
      else raised_or_done attempt code (raise_for_status code)

  module _ (answers : ℕ → Attempt) where
    -- `left` is the number of attempts that remain of `range(max_retries)`.
    unfoldable pub attempt_from : ℕ → ℕ → Option Text → List Seconds → Transcript Seconds
    attempt_from zero attempt last sleeps = record {
      finish = gave_up last;
      sent = attempt;
      sleeps = sleeps;
    }
    attempt_from (suc left) attempt last sleeps = elim (judge attempt last (answers attempt)) [
      | done code ↦ record { finish = returned code; sent = suc attempt; sleeps = sleeps }
      | again delay error ↦ attempt_from left (suc attempt) error (delay ∷ sleeps)
      | crash e ↦ record { finish = crashed e; sent = suc attempt; sleeps = sleeps }
    ]

    unfoldable pub request : ℕ → Transcript Seconds
    unfolding attempt_from
    request max_retries = attempt_from max_retries 0 none []

    -- The last answer of those that were asked for.
    abbrev LastIs : Attempt → ℕ → Type 0
    LastIs answer sent = (n : ℕ) × (sent ≡ suc n) × (answers n ≡ answer)

    -- How a loop that starts at an attempt ends.
    pub data Ends (left attempt : ℕ) (sleeps : List Seconds) (t : Transcript Seconds) : Type 0 where
      returns :
          (code : ℕ) (retry_after : Option Text)
          → t.finish ≡ returned code
          → LastIs (reply code retry_after) t.sent
          → raise_for_status code ≡ none
          → code ≢ 429
          → attempt < t.sent
          → t.sent ≤ attempt + left
          → length t.sleeps + 1 ≡ length sleeps + (t.sent - attempt)
          → Ends left attempt sleeps t
      gives_up :
          (error : Option Text)
          → t.finish ≡ gave_up error
          → t.sent ≡ attempt + left
          → length t.sleeps ≡ length sleeps + left
          → Ends left attempt sleeps t
      crashes :
          (header : Text) (e : Exn)
          → t.finish ≡ crashed e
          → LastIs (reply 429 (some header)) t.sent
          → float header ≡ raised e
          → attempt < t.sent
          → t.sent ≤ attempt + left
          → length t.sleeps + 1 ≡ length sleeps + (t.sent - attempt)
          → Ends left attempt sleeps t

    later :
        (left attempt : ℕ) (delay : Seconds) (sleeps : List Seconds) (t : Transcript Seconds)
        → Ends left (suc attempt) (delay ∷ sleeps) t
        → Ends (suc left) attempt sleeps t
    later left attempt delay sleeps t (returns code header e last fine other low high slept) =
        returns code header e last fine other (omega arith) (omega arith) (omega arith)
    later left attempt delay sleeps t (gives_up error e all slept) =
        gives_up error e (omega arith) (omega arith)
    later left attempt delay sleeps t (crashes header exn e last bad low high slept) =
        crashes header exn e last bad (omega arith) (omega arith) (omega arith)

    -- What an attempt that ends the loop was.
    abbrev Ending : ℕ → Verdict Seconds → Type 0
    Ending attempt (done code) =
        (retry_after : Option Text) × (answers attempt ≡ reply code retry_after)
        × (raise_for_status code ≡ none)
        × (code ≢ 429)
    Ending attempt (again delay error) = Unit
    Ending attempt (crash e) =
        (header : Text) × (answers attempt ≡ reply 429 (some header)) × (float header ≡ raised e)

    raised_or_done-Ending :
        (attempt code : ℕ) (header message : Option Text)
        → answers attempt ≡ reply code header
        → (code == 429) ≡ false
        → raise_for_status code ≡ message
        → Ending attempt (raised_or_done attempt code message)
    unfolding raised_or_done
    raised_or_done-Ending attempt code header none e other fine =
        (header, e, fine, λ k. cc (sym other ∙ ==_of_eq code 429 k))
    raised_or_done-Ending attempt code header (some message) e other bad = tt

    slept_or_crash-Ending :
        (attempt : ℕ) (header : Text) (last : Option Text) (delay : Except Seconds)
        → answers attempt ≡ reply 429 (some header)
        → float header ≡ delay
        → Ending attempt (slept_or_crash last delay)
    unfolding slept_or_crash
    slept_or_crash-Ending attempt header last (raised exn) e bad = (header, e, bad)
    slept_or_crash-Ending attempt header last (ok delay) e fine = tt

    rate_limited-Ending :
        (attempt : ℕ) (last header : Option Text)
        → answers attempt ≡ reply 429 header
        → Ending attempt (rate_limited attempt last header)
    unfolding rate_limited
    rate_limited-Ending attempt last none e = tt
    rate_limited-Ending attempt last (some header) e =
        slept_or_crash-Ending attempt header last (float header) e refl

    judge-Ending :
        (attempt : ℕ) (last : Option Text) (answer : Attempt)
        → answers attempt ≡ answer
        → Ending attempt (judge attempt last answer)
    unfolding judge
    judge-Ending attempt last (http_error message) e = tt
    judge-Ending attempt last (reply code header) e = elim (Bool-cases (code == 429)) [
      | inl limited ↦ rw limited (
          rate_limited-Ending attempt last header
            (e ∙ ap (λ (c : ℕ). reply c header) ((==_iff code 429).0 limited)))
      | inr other ↦ rw other (elim (Bool-cases (leb 500 code && ltb code 600)) [
        | inl server ↦ rw server tt
        | inr answered ↦
            rw answered
              (raised_or_done-Ending attempt code header (raise_for_status code) e other refl)
      ])
    ]

    attempt_from-Ends :
        (left attempt : ℕ) (last : Option Text) (sleeps : List Seconds)
        → Ends left attempt sleeps (attempt_from left attempt last sleeps)
    unfolding attempt_from
    attempt_from-Ends zero attempt last sleeps = gives_up last refl (omega arith) (omega arith)
    attempt_from-Ends (suc left) attempt last sleeps =
        next_round (judge attempt last (answers attempt)) refl
          (judge-Ending attempt last (answers attempt) refl)
          (λ delay error. attempt_from-Ends left (suc attempt) error (delay ∷ sleeps))
      where
        next_round :
            (v : Verdict Seconds)
            → judge attempt last (answers attempt) ≡ v
            → Ending attempt v
            → ((delay : Seconds) (error : Option Text)
                → Ends left
                    (suc attempt)
                    (delay ∷ sleeps)
                    (attempt_from left (suc attempt) error (delay ∷ sleeps)))
            → Ends (suc left) attempt sleeps (attempt_from (suc left) attempt last sleeps)
        next_round (done code) e (header, answered, fine, other) rec =
            rw (e, attempt_from)
              (returns code header refl (attempt, refl, answered) fine other (omega arith)
                (omega arith) (omega arith))
        next_round (again delay error) e ending rec =
            rw (e, attempt_from) (later left attempt delay sleeps _ (rec delay error))
        next_round (crash exn) e (header, answered, bad) rec =
            rw (e, attempt_from)
              (crashes header exn refl (attempt, refl, answered) bad (omega arith) (omega arith)
                (omega arith))

    -- For any number of attempts and any answers, the request ends in one of three ways. It returns
    -- the code of the last answer, for which raise_for_status does not raise and which is not 429,
    -- after at least one and at most that many requests, with one sleep fewer than requests. It
    -- gives up after exactly that many requests and as many sleeps. Or an exception leaves the loop,
    -- with the same bounds as for a return, where the last answer is a 429 whose Retry-After header
    -- `float` and `time.sleep` do not take.
    pub request-Ends : (max_retries : ℕ) → Ends max_retries 0 [] (request max_retries)
    unfolding request
    request-Ends max_retries = attempt_from-Ends max_retries 0 none []

-- ===== src/EventBuffer.antt =====
-- EventBuffer.js: `bufferEvents`, its arguments and the listener that it adds.
pub mod Bursts
pub mod Arguments
mod Tests
use huey.Base.{
  ℕ, zero, suc, ◌+◌, ◌≤◌, ◌≡◌, Bool, true, false, Option, none, some, List, [], ◌∷◌, ◌++◌, String,
}
use huey.Base.Result.{Result, ok, throw, type_error, error}

-- A call of the handler: when, with which event and with which count; the count of the final
-- call is `undefined`.
pub record Call (E : Type 0) : Type 0 where
  pub time : ℕ
  pub event : E
  pub count : Option ℕ

-- The timer that is set, with its event and the time before which it does not expire.
pub record Timer (E : Type 0) : Type 0 where
  pub event : E
  pub due : ℕ

-- What a listener keeps, with the clock and the calls of the handler so far. There is one timer at
-- most: `timeoutId` is the one that is set.
pub record Buffer (E : Type 0) : Type 0 where
  pub now : ℕ
  pub timeout_id : Option (Timer E)
  pub count : ℕ
  pub calls : List (Call E)

unfoldable pub next_count : {E : Type 0} → Buffer E → ℕ
next_count b = elim b.timeout_id [ none ↦ 0 | some timer ↦ suc b.count ]

-- The listener, where the handler returns; `timeout` is what `timeoutGetter` returns.
unfoldable pub listener : {E : Type 0} → Buffer E → E → ℕ → Buffer E
unfolding next_count
listener b event timeout = record {
  now = b.now;
  timeout_id = some (record { event = event; due = b.now + timeout });
  count = next_count b;
  calls = b.calls ++ record { time = b.now; event = event; count = some (next_count b) } ∷ [];
}

-- The callback of the timer.
unfoldable pub expire : {E : Type 0} → Buffer E → Timer E → Buffer E
expire b timer = record b {
  timeout_id = none;
  calls = b.calls ++ record { time = b.now; event = timer.event; count = none } ∷ [];
}

unfoldable pub initial : {E : Type 0} → ℕ → Buffer E
initial now = record { now = now; timeout_id = none; count = 0; calls = [] }

-- An event, when it was fired, and what `timeoutGetter` returned then.
pub record Fired (E : Type 0) : Type 0 where
  pub time : ℕ
  pub event : E
  pub timeout : ℕ

-- What happens to a listener, with the events that are fired: time passes, an event is fired, or
-- the timer expires, not before its time.
pub data Step {E : Type 0} : Buffer E → List (Fired E) → Buffer E → Type 0 where
  tick : (b : Buffer E) → Step b [] (record b { now = suc b.now })
  fire :
      (b : Buffer E) (event : E) (timeout : ℕ)
      → Step b
          (record { time = b.now; event = event; timeout = timeout } ∷ [])
          (listener b event timeout)
  timeout :
      (b : Buffer E) (timer : Timer E)
      → b.timeout_id ≡ some timer
      → timer.due ≤ b.now
      → Step b [] (expire b timer)

-- With all the events that were fired, in their order.
pub data Reach {E : Type 0} (s : Buffer E) : List (Fired E) → Buffer E → Type 0 where
  here : Reach s [] s
  next :
      {t u : Buffer E} {fired more : List (Fired E)}
      → Reach s fired t
      → Step t more u
      → Reach s (fired ++ more) u

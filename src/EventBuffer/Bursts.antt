-- ===== src/EventBuffer/Bursts.antt =====
-- EventBuffer.js: the handler gets events in bursts, counted from 0, and a final call for each.
use huey.Base.{
  ℕ, suc, ◌+◌, ◌≤◌, ◌≡◌, refl, sym, ap, ◌∙◌, none, some, List, [], ◌∷◌, ◌++◌, arith, length,
  length-append,
}
use native.Mathlib.Nat.{add-zero}
use mathlib.Core.List.{append_assoc, append-nil}
use huey.EventBuffer.{
  Call, Timer, Buffer, Fired, next_count, listener, expire, initial, Step, tick, fire, timeout,
  Reach, here, next,
}

module _ {E : Type 0} where
  -- The calls for events, counted on from a number.
  unfoldable pub counted : ℕ → List (Fired E) → List (Call E)
  counted n [] = []
  counted n (f ∷ burst) =
      record { time = f.time; event = f.event; count = some n } ∷ counted (suc n) burst

  -- The calls for these events: bursts that have ended, one behind the other, which are all of
  -- them.
  pub data IsBursts : List (Fired E) → List (Call E) → Type 0 where
    start : IsBursts [] []
    ended :
        {fired : List (Fired E)} {all : List (Call E)} (past : List (Fired E))
        (calls : List (Call E)) (burst : List (Fired E)) (last : Fired E) (time : ℕ)
        → IsBursts past calls
        → last.time + last.timeout ≤ time
        → fired ≡ past ++ (burst ++ last ∷ [])
        → all
          ≡ (calls ++ counted 0 (burst ++ last ∷ []))
            ++ record { time = time; event = last.event; count = none } ∷ []
        → IsBursts fired all

  -- With the burst that goes on, and its last event.
  pub data IsBuffer (fired : List (Fired E)) (b : Buffer E) : Type 0 where
    idle : IsBursts fired b.calls → b.timeout_id ≡ none → IsBuffer fired b
    going :
        (past : List (Fired E)) (calls : List (Call E)) (burst : List (Fired E)) (last : Fired E)
        → IsBursts past calls
        → fired ≡ past ++ (burst ++ last ∷ [])
        → b.calls ≡ calls ++ counted 0 (burst ++ last ∷ [])
        → b.timeout_id ≡ some (record { event = last.event; due = last.time + last.timeout })
        → b.count ≡ length burst
        → IsBuffer fired b

  counted-append :
      (n : ℕ) (burst : List (Fired E)) (f : Fired E)
      → counted n (burst ++ f ∷ [])
        ≡ counted n burst
          ++ record { time = f.time; event = f.event; count = some (n + length burst) } ∷ []
  unfolding counted
  counted-append n [] f = rw (add-zero n) refl
  counted-append n (g ∷ burst) f =
      ap (λ (l : List (Call E)). record { time = g.time; event = g.event; count = some n } ∷ l)
        (counted-append (suc n) burst f
          ∙ ap
              (λ k.
                counted (suc n) burst
                ++ record { time = f.time; event = f.event; count = some k } ∷ [])
              (omega arith))

  abbrev fired_at : Buffer E → E → ℕ → Fired E
  fired_at b event d = record { time = b.now; event = event; timeout = d }

  first :
      (fired : List (Fired E)) (b : Buffer E) (event : E) (d : ℕ)
      → IsBursts fired b.calls
      → b.timeout_id ≡ none
      → IsBuffer (fired ++ fired_at b event d ∷ []) (listener b event d)
  unfolding listener next_count counted
  first fired b event d h e =
      going fired b.calls [] (fired_at b event d) h refl (rw (e) refl) refl (rw e refl)

  another :
      (fired : List (Fired E)) (b : Buffer E) (event : E) (d : ℕ) (past : List (Fired E))
      (calls : List (Call E)) (burst : List (Fired E)) (last : Fired E)
      → IsBursts past calls
      → fired ≡ past ++ (burst ++ last ∷ [])
      → b.calls ≡ calls ++ counted 0 (burst ++ last ∷ [])
      → b.timeout_id ≡ some (record { event = last.event; due = last.time + last.timeout })
      → b.count ≡ length burst
      → IsBuffer (fired ++ fired_at b event d ∷ []) (listener b event d)
  unfolding listener next_count
  another fired b event d past calls burst last h all e t n =
      let f = fired_at b event d in
      let more : next_count b ≡ length (burst ++ last ∷ []) =
        rw (t) (ground (arith, n, length-append burst (last ∷ []))) in
      let call = λ (k : ℕ). record { time = b.now; event = event; count = some k } ∷ [] in
      going past calls (burst ++ last ∷ []) f h
        (ap (λ (l : List (Fired E)). l ++ f ∷ []) all
          ∙ append_assoc past (burst ++ last ∷ []) (f ∷ []))
        (ap (λ (l : List (Call E)). l ++ call (next_count b)) e
          ∙ append_assoc calls (counted 0 (burst ++ last ∷ [])) (call (next_count b))
          ∙ ap (λ (l : List (Call E)). calls ++ l)
              (ap (λ k. counted 0 (burst ++ last ∷ []) ++ call k) (omega (arith, more))
                ∙ sym (counted-append 0 (burst ++ last ∷ []) f)))
        refl more

  ending :
      (fired : List (Fired E)) (b : Buffer E) (timer : Timer E) (past : List (Fired E))
      (calls : List (Call E)) (burst : List (Fired E)) (last : Fired E)
      → timer.due ≤ b.now
      → b.timeout_id ≡ some timer
      → IsBursts past calls
      → fired ≡ past ++ (burst ++ last ∷ [])
      → b.calls ≡ calls ++ counted 0 (burst ++ last ∷ [])
      → b.timeout_id ≡ some (record { event = last.event; due = last.time + last.timeout })
      → IsBuffer fired (expire b timer)
  unfolding expire
  ending fired b timer past calls burst last d t0 h all e t =
      let same : timer ≡ record { event = last.event; due = last.time + last.timeout } =
        ground arith in
      idle
        (ended past calls burst last b.now h (ground (arith, same, d)) all
          (ground (arith, same, e)))
        refl

  unfired : {fired : List (Fired E)} {b : Buffer E} → IsBuffer fired b → IsBuffer (fired ++ []) b
  unfired {fired} {b} h = rw (append-nil fired) h

  ticked :
      {fired : List (Fired E)} (b : Buffer E)
      → IsBuffer fired b
      → IsBuffer fired (record b { now = suc b.now })
  ticked b (idle h e) = idle h e
  ticked b (going past calls burst last h all e t n) = going past calls burst last h all e t n

  Step-IsBuffer :
      {b c : Buffer E} {more : List (Fired E)} (fired : List (Fired E))
      → Step b more c
      → IsBuffer fired b
      → IsBuffer (fired ++ more) c
  Step-IsBuffer fired (tick b) h = unfired (ticked b h)
  Step-IsBuffer fired (fire b event d) (idle h e) = first fired b event d h e
  Step-IsBuffer fired (fire b event d) (going past calls burst last h all e t n) =
      another fired b event d past calls burst last h all e t n
  Step-IsBuffer fired (timeout b timer t0 d) (idle h e) = absurd (ground arith)
  Step-IsBuffer fired (timeout b timer t0 d) (going past calls burst last h all e t n) =
      unfired (ending fired b timer past calls burst last d t0 h all e t)

  initial-IsBuffer : (now : ℕ) → IsBuffer [] (initial now)
  unfolding initial
  initial-IsBuffer now = idle start refl

  -- Whatever happens to a listener of `bufferEvents`, with events that are fired at any time,
  -- any timeouts and a timer that expires at any time from when it is due: the calls of the
  -- handler are those for all the events that were fired, in that order, each at the time of
  -- its event, cut into bursts of one or more that are counted from 0, with a final call
  -- behind each burst, of its last event and without a count, no earlier than that event's
  -- timeout behind it; the last burst has no final call yet just when a timer is set.
  pub Reach-IsBuffer :
      (now : ℕ) (fired : List (Fired E)) (b : Buffer E)
      → Reach (initial now) fired b
      → IsBuffer fired b
  Reach-IsBuffer now fired b here = initial-IsBuffer now
  Reach-IsBuffer now fired b (next {t} {u} {fired = past} {more} r step) =
      Step-IsBuffer past step (Reach-IsBuffer now past t r)

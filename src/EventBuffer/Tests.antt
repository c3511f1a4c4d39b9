-- ===== src/EventBuffer/Tests.antt =====
-- EventBuffer.js: two events, and the final call.
use huey.Base.{ℕ, ◌≡◌, refl, true, some, List, [], ◌∷◌, String}
use huey.Base.Result.{returns}
use huey.EventBuffer.{Fired, Buffer, initial, listener, Reach, here, next, fire}
use huey.EventBuffer.Bursts.{IsBuffer, Reach-IsBuffer}
use huey.EventBuffer.Arguments.{
  Value, undefined, null, function, number, text, object, buffer_events, are_arguments,
  returns-buffer_events,
}

abbrev fired : Buffer ℕ
fired = listener (listener (initial 10) 7 100) 8 100

fired-calls :
    fired.calls
    ≡ record { time = 10; event = 7; count = some 0 }
      ∷ record { time = 10; event = 8; count = some 1 }
      ∷ []
unfolding listener initial
fired-calls = refl

abbrev two_fired : List (Fired ℕ)
two_fired =
    record { time = 10; event = 7; timeout = 100 }
    ∷ record { time = 10; event = 8; timeout = 100 }
    ∷ []

fired-reached : Reach (initial 10) two_fired fired
unfolding listener initial
fired-reached =
    next (next here (fire (initial 10) 7 100)) (fire (listener (initial 10) 7 100) 8 100)

Reach-IsBuffer_example : IsBuffer two_fired fired
Reach-IsBuffer_example = Reach-IsBuffer 10 two_fired fired fired-reached

abbrev document : String → Value
document id = null

returns-buffer_events_example :
    returns (buffer_events document (object true) (text "scroll") function (number 5) undefined 4)
    ≡ are_arguments document (object true) (text "scroll") function (number 5) undefined 4
returns-buffer_events_example =
    returns-buffer_events document (object true) (text "scroll") function (number 5) undefined 4

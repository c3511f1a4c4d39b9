-- ===== src/EventEmitter/Tests.antt =====
-- EventEmitter.js with two listeners, named by numbers.
use huey.Base.{ℕ, ◌≡◌, refl, Bool, true, false, none, some, List, [], ◌∷◌, String, ◌==◌}
use huey.Base.Result.{ok}
use huey.Base.Dict
use huey.Base.Dict.{Dict}
use huey.EventEmitter.{
  EventEmitter, Event, listeners_of, is_supported, includes, emit_events, add_event_listener,
  remove_event_listener,
}
use huey.EventEmitter.Queue.{fire_all, fire_all-held}
use huey.EventEmitter.Listeners.{remove-add_event_listener}

abbrev listening : Dict (List ℕ)
listening = ("change", 1 ∷ 2 ∷ []) ∷ []

abbrev emitter : EventEmitter ℕ ℕ
emitter = record {
  emitting = true;
  queued_events = none;
  event_listeners = some listening;
  supported_events = "change" ∷ "beforechange" ∷ [];
  delivered = [];
}

abbrev events : List (Event ℕ)
events = ("beforechange", 10) ∷ ("change", 11) ∷ ("change", 12) ∷ []

fire_all-held_example :
    (emit_events (fire_all (emit_events emitter false).0 events) true).0.delivered
    ≡ (fire_all emitter events).delivered
fire_all-held_example = fire_all-held emitter listening events refl refl

abbrev same_number : ℕ → ℕ → Bool
same_number a b = a == b

remove-add_event_listener_example :
    (after : Dict (List ℕ)) × (remove_event_listener same_number
        (add_event_listener same_number emitter "change" 3).0
        "change"
        3
      ≡ (record emitter { event_listeners = some after }, ok 1))
    × ((other : String) → listeners_of after other ≡ listeners_of listening other)
unfolding is_supported includes listeners_of Dict.get
remove-add_event_listener_example =
    remove-add_event_listener same_number emitter listening "change" 3 refl refl refl refl

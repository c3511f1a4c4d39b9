-- ===== src/EventEmitter/Queue.antt =====
-- EventEmitter.js: events that are held back are delivered later, all of them and in their order.
use huey.Base.{
  ◌≡◌, refl, sym, ap, subst, ◌∙◌, Bool, true, false, Option, none, some, List, [], ◌∷◌, ◌++◌,
  String, Option-cases, inl, inr,
}
use mathlib.Core.List.{append-nil, append_assoc}
use huey.Base.Dict
use huey.Base.Dict.{Dict}
use huey.EventEmitter.{
  EventEmitter, Event, call_each, listeners_of, fire_event, deliver_queued, emit_events,
}

module _ {L E : Type 0} where
  unfoldable pub fire_all : EventEmitter L E → List (Event E) → EventEmitter L E
  fire_all e [] = e
  fire_all e (event ∷ events) = fire_all (fire_event e event).0 events

  -- Those of the events that somebody listens to.
  heard : Dict (List L) → List (Event E) → List (Event E)
  heard all [] = []
  heard all (event ∷ events) =
      let rest = heard all events in
      elim (Dict.get all event.0) [ none ↦ rest | some listeners ↦ event ∷ rest ]

  heard-none :
      (all : Dict (List L)) (event : Event E) (events : List (Event E))
      → Dict.get all event.0 ≡ none
      → (heard all (event ∷ events) ≡ heard all events) × (listeners_of all event.0 ≡ [])
  unfolding heard listeners_of
  heard-none all event events e = (rw (e, heard) refl, rw (e, listeners_of) refl)

  heard-some :
      (all : Dict (List L)) (event : Event E) (events : List (Event E)) (listeners : List L)
      → Dict.get all event.0 ≡ some listeners
      → heard all (event ∷ events) ≡ event ∷ heard all events
  unfolding heard
  heard-some all event events listeners e = rw (e, heard) refl

  deliver-heard :
      (all : Dict (List L)) (events : List (Event E))
      → deliver_queued all (heard all events) ≡ deliver_queued all events
  unfolding deliver_queued heard call_each
  deliver-heard all [] = refl
  deliver-heard all (event ∷ events) =
      let rest = deliver-heard all events in
      elim (Option-cases (Dict.get all event.0)) [
        | inl e ↦ let (same, nobody) = heard-none all event events e in rw (same, nobody) rest
        | inr (listeners, e) ↦
            ap (deliver_queued all) (heard-some all event events listeners e)
            ∙ ap (λ (l : List (L × Event E)). call_each (listeners_of all event.0) event ++ l) rest
      ]

  -- An emitter that is not destroyed.
  abbrev emitter :
      Bool
      → Option (List (Event E))
      → Dict (List L)
      → List String
      → List (L × Event E)
      → EventEmitter L E
  emitter emitting queued all supported delivered = record {
    emitting = emitting;
    queued_events = queued;
    event_listeners = some all;
    supported_events = supported;
    delivered = delivered;
  }

  module _ (all : Dict (List L)) (supported : List String) where
    fire-emitting :
        (queued : Option (List (Event E))) (delivered : List (L × Event E))
        (events : List (Event E))
        → fire_all (emitter true queued all supported delivered) events
          ≡ emitter true queued all supported (delivered ++ deliver_queued all events)
    unfolding fire_all fire_event deliver_queued listeners_of call_each
    fire-emitting queued delivered [] = rw append-nil refl
    fire-emitting queued delivered (event ∷ events) = elim (Option-cases (Dict.get all event.0)) [
      | inl e ↦ rw (e, fire_event, listeners_of) (fire-emitting queued delivered events)
      | inr (listeners, e) ↦
          rw (e, fire_event, listeners_of)
            (fire-emitting queued (delivered ++ call_each listeners event) events
              ∙ ap (emitter true queued all supported)
                  (append_assoc delivered (call_each listeners event) (deliver_queued all events)))
    ]

    fire-queueing :
        (queued : List (Event E)) (delivered : List (L × Event E)) (events : List (Event E))
        → fire_all (emitter false (some queued) all supported delivered) events
          ≡ emitter false (some (queued ++ heard all events)) all supported delivered
    unfolding fire_all fire_event heard
    fire-queueing queued delivered [] = rw append-nil refl
    fire-queueing queued delivered (event ∷ events) = elim (Option-cases (Dict.get all event.0)) [
      | inl e ↦ rw (e, fire_event, heard) (fire-queueing queued delivered events)
      | inr (listeners, e) ↦
          rw (e, fire_event, heard)
            (fire-queueing (queued ++ event ∷ []) delivered events
              ∙ ap (λ q. emitter false (some q) all supported delivered)
                  (append_assoc queued (event ∷ []) (heard all events)))
    ]

    emit-queue :
        (delivered : List (L × Event E)) (queued : List (Event E))
        → (emit_events (emitter false (some queued) all supported delivered) true).0.delivered
          ≡ delivered ++ deliver_queued all queued
    unfolding emit_events deliver_queued
    emit-queue delivered [] = rw append-nil refl
    emit-queue delivered (event ∷ queued) = refl

  held :
      (all : Dict (List L)) (supported : List String) (queued : Option (List (Event E)))
      (delivered : List (L × Event E)) (events : List (Event E))
      → (emit_events
          (fire_all (emit_events (emitter true queued all supported delivered) false).0 events)
          true).0.delivered
        ≡ (fire_all (emitter true queued all supported delivered) events).delivered
  unfolding emit_events
  held all supported queued delivered events =
      ap (λ (r : EventEmitter L E). (emit_events r true).0.delivered)
        (fire-queueing all supported [] delivered events)
      ∙ emit-queue all supported delivered (heard all events)
      ∙ ap (λ (l : List (L × Event E)). delivered ++ l) (deliver-heard all events)
      ∙ sym (
          ap (λ (r : EventEmitter L E). r.delivered)
            (fire-emitting all supported queued delivered events))

  -- On an emitter that is not destroyed and emits its events: events that are fired while they
  -- are held back, between `emitEvents(false)` and `emitEvents(true)`, are in the end
  -- delivered to the same listeners in the same order as if they had not been held back.
  pub fire_all-held :
      (e : EventEmitter L E) (all : Dict (List L)) (events : List (Event E))
      → e.emitting ≡ true
      → e.event_listeners ≡ some all
      → (emit_events (fire_all (emit_events e false).0 events) true).0.delivered
        ≡ (fire_all e events).delivered
  fire_all-held e all events h k =
      let same : e ≡ emitter true e.queued_events all e.supported_events e.delivered = cc in
      subst
        (λ (r : EventEmitter L E).
          (emit_events (fire_all (emit_events r false).0 events) true).0.delivered
          ≡ (fire_all r events).delivered)
        (sym same) (held all e.supported_events e.queued_events e.delivered events)

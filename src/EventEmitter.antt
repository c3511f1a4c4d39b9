-- ===== src/EventEmitter.antt =====
-- src/util/event/EventEmitter.js: listeners, and events that are sent at once or queued. `E` is the
-- type of the data of an event, `L` that of listeners; `delivered` holds the calls of listeners.
pub mod Queue
pub mod Listeners
mod Tests
use huey.Base.{
  ℕ, zero, suc, ◌+◌, Bool, true, false, Option, none, some, List, [], ◌∷◌, ◌++◌, String,
  if◌then◌else◌,
}
use huey.Base.Result.{Result, ok, throw, type_error, error}
use huey.Base.Dict
use huey.Base.Dict.{Dict}
use Prim.Native.String.{◌++◌ as str_append}
use text.Mathlib.Text.{◌==◌ as str_eq}

abbrev pub Event : Type 0 → Type 0
Event E = String × E

-- The private fields; `event_listeners` is `none` after `destroy`.
pub record EventEmitter (L E : Type 0) : Type 0 where
  pub emitting : Bool
  pub queued_events : Option (List (Event E))
  pub event_listeners : Option (Dict (List L))
  pub supported_events : List String
  pub delivered : List (L × Event E)

-- `eventListeners[event.type]`, no listeners where there is no entry.
unfoldable pub listeners_of : {L : Type 0} → Dict (List L) → String → List L
listeners_of all event_type = elim (Dict.get all event_type) [
  | none ↦ []
  | some listeners ↦ listeners
]

module _ {L E : Type 0} where
  unfoldable pub destroy : EventEmitter L E → EventEmitter L E
  destroy e = record e { event_listeners = none }

  unfoldable pub call_each : List L → Event E → List (L × Event E)
  call_each [] event = []
  call_each (listener ∷ listeners) event = (listener, event) ∷ call_each listeners event

  -- An event that nobody listens to is dropped; it is not queued.
  unfoldable pub fire_event : EventEmitter L E → Event E → EventEmitter L E × Result {0} Unit
  unfolding call_each
  fire_event e event = elim e.event_listeners [
    | none ↦ (e, throw type_error)
    | some all ↦ elim (Dict.get all event.0) [
      | none ↦ (e, ok tt)
      | some listeners ↦
          if e.emitting
          then (record e { delivered = e.delivered ++ call_each listeners event }, ok tt)
          else elim e.queued_events [
            | none ↦ (e, throw type_error)
            | some queued ↦ (record e { queued_events = some (queued ++ event ∷ []) }, ok tt)
          ]
    ]
  ]

  unfoldable pub deliver_queued : Dict (List L) → List (Event E) → List (L × Event E)
  unfolding call_each listeners_of
  deliver_queued all [] = []
  deliver_queued all (event ∷ queued) =
      call_each (listeners_of all event.0) event ++ deliver_queued all queued

  unfoldable pub emit_events : EventEmitter L E → Bool → EventEmitter L E × Result {0} Unit
  unfolding deliver_queued
  emit_events e false = (record e { queued_events = some []; emitting = false }, ok tt)
  emit_events e true = elim e.queued_events as (λ x. EventEmitter L E × Result {0} Unit) [
    | none ↦ (record e { emitting = true }, ok tt)
    | some [] ↦ (record e { emitting = true }, ok tt)
    | some (first ∷ rest) ↦ elim e.event_listeners as (λ x. EventEmitter L E × Result {0} Unit) [
      | none ↦ (record e { queued_events = some [] }, throw type_error)
      | some all ↦ (
        record e {
          queued_events = some [];
          delivered = e.delivered ++ deliver_queued all (first ∷ rest);
          emitting = true;
        },
        ok tt,
      )
    ]
  ]

unfoldable pub is_supported : List String → String → Bool
is_supported [] event_type = false
is_supported (first ∷ supported) event_type =
    let rest = is_supported supported event_type in if str_eq first event_type then true else rest

unfoldable pub check_event_type : {L E : Type 0} → EventEmitter L E → String → Result {0} Unit
unfolding is_supported
check_event_type e event_type =
    if is_supported e.supported_events event_type
    then ok tt
    else throw (error (str_append "Unrecognized event type " event_type))

-- `same` is the identity of functions.
module _ {L : Type 0} (same : L → L → Bool) where
  unfoldable pub includes : List L → L → Bool
  includes [] listener = false
  includes (first ∷ listeners) listener =
      let rest = includes listeners listener in if same first listener then true else rest

  -- The loop of `removeEventListener`: what is left, and how many were removed.
  unfoldable pub remove_all : List L → L → List L × ℕ
  remove_all [] listener = ([], 0)
  remove_all (first ∷ listeners) listener =
      let (left, count) = remove_all listeners listener in
      if same first listener then (left, suc count) else (first ∷ left, count)

module _ {L E : Type 0} (same : L → L → Bool) where
  unfoldable pub add_event_listener :
      EventEmitter L E → String → L → EventEmitter L E × Result {0} Unit
  unfolding includes check_event_type listeners_of
  add_event_listener e event_type listener = elim (check_event_type e event_type) [
    | throw x ↦ (e, throw x)
    | ok _ ↦ elim e.event_listeners [
      | none ↦ (e, throw type_error)
      | some all ↦ if includes same (listeners_of all event_type) listener then (e, ok tt) else (
        record e {
          event_listeners =
              some (Dict.set all event_type (listeners_of all event_type ++ listener ∷ []));
        },
        ok tt,
      )
    ]
  ]

  unfoldable pub remove_event_listener :
      EventEmitter L E → String → L → EventEmitter L E × Result {0} ℕ
  unfolding remove_all check_event_type
  remove_event_listener e event_type listener = elim (check_event_type e event_type) [
    | throw x ↦ (e, throw x)
    | ok _ ↦ elim e.event_listeners [
      | none ↦ (e, throw type_error)
      | some all ↦ elim (Dict.get all event_type) [
        | none ↦ (e, ok 0)
        | some listeners ↦
            let (left, count) = remove_all same listeners listener in
            (record e { event_listeners = some (Dict.set all event_type left) }, ok count)
      ]
    ]
  ]

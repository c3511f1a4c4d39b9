-- ===== src/EventEmitter/Listeners.antt =====
-- EventEmitter.js: adding and removing a listener.
use huey.Base.{◌≡◌, refl, Bool, true, false, some, List, [], ◌∷◌, ◌++◌, String, arith}
use huey.Base.Result.{ok}
use text.Mathlib.TextEquality.{eq_iff}
use huey.Base.Dict
use huey.Base.Dict.{Dict}
use huey.EventEmitter.{
  EventEmitter, listeners_of, is_supported, includes, check_event_type, add_event_listener,
  remove_all, remove_event_listener,
}

remove_all-absent :
    {L : Type 0} (same : L → L → Bool) (ls : List L) (l : L)
    → includes same ls l ≡ false
    → same l l ≡ true
    → remove_all same (ls ++ l ∷ []) l ≡ (ls, 1)
unfolding remove_all includes
remove_all-absent same [] l h r = rw r refl
remove_all-absent same (first ∷ ls) l h r = ground (arith, remove_all-absent same ls l)

module _ {L E : Type 0} (same : L → L → Bool) (e : EventEmitter L E) (all : Dict (List L))
    (event_type : String) (l : L) (known : is_supported e.supported_events event_type ≡ true)
    (alive : e.event_listeners ≡ some all)
    (absent : includes same (listeners_of all event_type) l ≡ false) where
  added : (add_event_listener same e event_type l) ≡ (
    record e {
      event_listeners = some (Dict.set all event_type (listeners_of all event_type ++ l ∷ []));
    },
    ok tt,
  )
  unfolding add_event_listener check_event_type
  added = rw (known, alive, absent, add_event_listener, check_event_type) refl

  restored :
      (other : String)
      → listeners_of
          (Dict.set
            (Dict.set all event_type (listeners_of all event_type ++ l ∷ []))
            event_type
            (listeners_of all event_type))
          other
        ≡ listeners_of all other
  unfolding listeners_of
  restored other = ground (
    arith,
    Dict.get-set (Dict.set all event_type (listeners_of all event_type ++ l ∷ [])) event_type other
        (listeners_of all event_type),
    Dict.get-set all event_type other (listeners_of all event_type ++ l ∷ []),
    eq_iff event_type other,
  )

  -- When the type of event is supported, the emitter is not destroyed, and the listener, which
  -- is the same as itself, was not there: adding it and removing it removes one listener, and
  -- leaves for every type of event the listeners that there were.
  pub remove-add_event_listener :
      same l l ≡ true
      → (after : Dict (List L)) × (remove_event_listener same
            (add_event_listener same e event_type l).0
            event_type
            l
          ≡ (record e { event_listeners = some after }, ok 1))
        × ((other : String) → listeners_of after other ≡ listeners_of all other)
  unfolding remove_event_listener check_event_type
  remove-add_event_listener r =
      let listeners = listeners_of all event_type in
      let middle = Dict.set all event_type (listeners ++ l ∷ []) in
      let there : Dict.get middle event_type ≡ some (listeners ++ l ∷ []) = ground (
        arith,
        Dict.get-set all event_type event_type (listeners ++ l ∷ []),
        eq_iff event_type event_type,
      ) in
      (
        Dict.set middle event_type listeners,
        rw (added) (
            rw
              (
                known,
                there,
                remove_all-absent same listeners l absent r,
                remove_event_listener,
                check_event_type,
              )
              refl),
        restored,
      )

-- ===== src/EventBuffer/Arguments.antt =====
-- EventBuffer.js: the arguments of `bufferEvents`. A number stands for any number, and the message
-- of an error is the part of it that does not quote the argument.
use huey.Base.{ℕ, Bool, true, false, ◌≡◌, ◌==◌, String, if◌then◌else◌, arith, ◌&&◌, ◌||◌}
use huey.Base.Result.{Result, ok, throw, type_error, error, ◌>>=◌, returns}

-- A value, with what `bufferEvents` asks of it: of an object, whether its `addEventListener` is a
-- function. `null` is an object to `typeof`.
pub data Value : Type 0 where
  undefined null boolean function : Value
  number : ℕ → Value
  text : String → Value
  object : Bool → Value

-- A time, or a function that gets it.
pub data Timeout : Type 0 where
  constant : ℕ → Timeout
  getter : Timeout

pub record Settings : Type 0 where
  pub emitter : Value
  pub scope : Value
  pub timeout : Timeout

-- `by_id` is what the document has for an id.
unfoldable pub find_emitter : (String → Value) → Value → Value
find_emitter by_id (text id) = by_id id
find_emitter by_id value = value

-- Reading a property of `null` throws a TypeError.
unfoldable pub check_emitter : Value → Result Value
check_emitter (object true) = ok (object true)
check_emitter (object false) = throw (error "eventEmitter should implement method addEventListener")
check_emitter null = throw type_error
check_emitter _ = throw (error "eventEmitter should be an object")

unfoldable pub check_event_id : Value → Result String
check_event_id (text id) = ok id
check_event_id _ = throw (error "event id should be a string")

unfoldable pub check_handler : Value → Result Value
check_handler function = ok function
check_handler _ = throw (error "handler should be a function")

-- The scope and the timeout: a number in the place of the scope is the timeout, when it is the last
-- of four arguments.
unfoldable pub check_scope : Value → Value → ℕ → Result (Value × Value)
check_scope (object adds) timeout count = ok (object adds, timeout)
check_scope null timeout count = ok (null, timeout)
check_scope (number n) timeout count =
    if count == 4
    then ok (null, number n)
    else throw (error "Invalid argument 4: should either be scope or timeout")
check_scope undefined timeout count = ok (null, timeout)
check_scope _ timeout count = throw (error "Invalid argument 4: should either be scope or timeout")

abbrev pub default_timeout : ℕ
default_timeout = 100

unfoldable pub check_timeout : Value → Result Timeout
check_timeout undefined = ok (constant default_timeout)
check_timeout (number n) = ok (constant n)
check_timeout function = ok getter
check_timeout _ = throw (error "Invalid value for timeout")

-- `count` is the number of arguments.
unfoldable pub buffer_events :
    (String → Value) → Value → Value → Value → Value → Value → ℕ → Result Settings
unfolding find_emitter check_emitter check_event_id check_handler check_scope check_timeout
buffer_events by_id event_emitter event_id handler scope timeout count =
    check_emitter (find_emitter by_id event_emitter) >>= λ emitter.
    check_event_id event_id >>= λ id. check_handler handler >>= λ callback.
    check_scope scope timeout count >>= λ scope_timeout.
    check_timeout scope_timeout.1 >>= λ checked.
    ok (record { emitter = emitter; scope = scope_timeout.0; timeout = checked })

-- Which arguments are a scope, and which a timeout.
unfoldable pub is_scope : Value → Bool
is_scope (object adds) = true
is_scope null = true
is_scope undefined = true
is_scope _ = false

unfoldable pub is_timeout : Value → Bool
is_timeout undefined = true
is_timeout (number n) = true
is_timeout function = true
is_timeout _ = false

unfoldable pub is_number : Value → Bool
is_number (number n) = true
is_number _ = false

-- `handler` is called with a scope and a timeout, or with a number alone for the timeout.
unfoldable pub are_arguments : (String → Value) → Value → Value → Value → Value → Value → ℕ → Bool
unfolding is_scope is_timeout is_number find_emitter
are_arguments by_id event_emitter event_id handler scope timeout count =
    (elim (find_emitter by_id event_emitter) [ object true ↦ true | _ ↦ false ])
    && (elim event_id [ text id ↦ true | _ ↦ false ])
    && (elim handler [ function ↦ true | _ ↦ false ])
    && ((is_scope scope && is_timeout timeout) || (is_number scope && (count == 4)))

-- `bufferEvents` accepts its arguments just when the first one is an object that can add
-- listeners, or the id of one, the second is a text, the third a function, and the others are
-- a scope (an object, null or nothing) and a timeout (a number, a function or nothing), or a
-- number in the place of the scope as the last of four arguments; otherwise it throws.
pub returns-buffer_events :
    (by_id : String → Value) (event_emitter event_id handler scope timeout : Value) (count : ℕ)
    → returns (buffer_events by_id event_emitter event_id handler scope timeout count)
      ≡ are_arguments by_id event_emitter event_id handler scope timeout count
unfolding buffer_events returns are_arguments check_emitter check_event_id check_handler check_scope
    check_timeout is_scope is_timeout is_number
returns-buffer_events by_id event_emitter event_id handler scope timeout count = ground arith

-- ===== src/Urts/Event.antt =====
-- sgx-urts/src/event.rs: the event on which a thread of the enclave waits outside of it, the cache of
-- events by thread, and the calls out of the enclave. An `i32` is its bit pattern. A wait gives the
-- mutex up while it sleeps, so it runs in sections: it enters, and it resumes after a notification.
pub mod Waiting
pub mod Cache
pub mod Tests
use sgx_sdk_rs.Base.{
  ◌*◌, ℕ, suc, ◌+◌, ◌-◌, ◌%◌, ◌^◌, List, [], ◌∷◌, Bool, true, false, not, ◌||◌, ltb, leb, ◌==◌,
  if◌then◌else◌, Option, none, some,
}

abbrev pub einval : ℕ
einval = 22

abbrev pub etimedout : ℕ
etimedout = 110

-- The value -1 of a C `int`.
abbrev pub minus_one : ℕ
minus_one = 2 ^ 32 - 1

abbrev pub is_negative : ℕ → Bool
is_negative v = leb (2 ^ 31) v

abbrev pub increment : ℕ → ℕ
increment v = (v + 1) % 2 ^ 32

abbrev pub decrement : ℕ → ℕ
decrement v = (v + (2 ^ 32 - 1)) % 2 ^ 32

-- The number under the mutex, the threads asleep on the condition variable, and those that have been
-- woken from it and have not got the mutex back yet.
pub record SeEvent : Type 0 where
  pub mutex : ℕ
  pub asleep : ℕ
  pub awake : ℕ

unfoldable pub new_event : SeEvent
new_event = record { mutex = 0; asleep = 0; awake = 0 }

-- Where a section of a wait ends: asleep, or with the value that it returns.
pub data Wait : Type 0 where
  sleeps : Wait
  returns : ℕ → Wait

-- The test that guards each sleep.
abbrev pub sleep_or_return : SeEvent → Wait × SeEvent
sleep_or_return e =
    if is_negative e.mutex then (sleeps, record e { asleep = suc e.asleep }) else (returns 0, e)

-- The first section of `wait`, and of `wait_timeout` with a duration.
unfoldable pub wait : SeEvent → Wait × SeEvent
wait e = sleep_or_return (record e { mutex = decrement e.mutex })

-- A thread that was woken, by a notification, by its timer or for no reason, gets the mutex back.
unfoldable pub resume : SeEvent → Wait × SeEvent
resume e = sleep_or_return (record e { awake = e.awake - 1 })

-- The same at the end of a `wait_timeout` whose duration is over.
unfoldable pub time_out : SeEvent → Wait × SeEvent
time_out e =
    let e' = record e { awake = e.awake - 1 } in
    if is_negative e.mutex then (returns etimedout, record e' { mutex = 0 }) else (returns 0, e')

-- A sleeping thread wakes up, if there is one.
abbrev pub notify_one : SeEvent → SeEvent
notify_one e = if e.asleep == 0 then e else record e { asleep = e.asleep - 1; awake = suc e.awake }

unfoldable pub wake : SeEvent → SeEvent
wake e =
    let e' = record e { mutex = increment e.mutex } in if e'.mutex == 0 then notify_one e' else e'

-- A `timespec`, its fields as bit patterns of 64 bits.
pub record Timespec : Type 0 where
  pub tv_sec : ℕ
  pub tv_nsec : ℕ

abbrev pub is_negative_64 : ℕ → Bool
is_negative_64 v = leb (2 ^ 63) v

-- The duration in nanoseconds.
unfoldable pub timespec_to_duration : Timespec → Option ℕ
timespec_to_duration t =
    if is_negative_64 t.tv_nsec || ltb 999_999_999 t.tv_nsec
    then none
    else if is_negative_64 t.tv_sec
    then none
    else some (t.tv_sec * 1_000_000_000 + t.tv_nsec)

unfoldable pub wait_timeout : Timespec → SeEvent → Wait × SeEvent
unfolding timespec_to_duration wait
wait_timeout timeout e = elim (timespec_to_duration timeout) [
  | none ↦ (returns einval, e)
  | some _ ↦ wait e
]

-- The events by thread control structure, in the order of their creation.
pub record SgxTcsInfo : Type 0 where
  pub tcs : ℕ
  pub se_event : SeEvent

-- `get_event` and what is done with the event: `f` runs on it in its place; a new one is pushed.
unfoldable pub get_event :
    {A : Type 0} → ℕ → (SeEvent → A × SeEvent) → List SgxTcsInfo → A × List SgxTcsInfo
unfolding new_event
get_event tcs f [] = let (a, e) = f new_event in (a, record { tcs = tcs; se_event = e } ∷ [])
get_event tcs f (info ∷ cache) =
    let (a, e) = f info.se_event in
    let (a', rest) = get_event tcs f cache in
    if info.tcs == tcs then (a, record info { se_event = e } ∷ cache) else (a', info ∷ rest)

-- What a call out of the enclave leaves: how it ends, what it wrote through `error` if that is not
-- null, and the cache.
pub record Ocall : Type 0 where
  pub ret : Wait
  pub error : Option ℕ
  pub cache : List SgxTcsInfo

-- The shared end of the calls: a result that is not 0 is an error number.
abbrev pub finish : Wait × List SgxTcsInfo → Ocall
finish (sleeps, cache) = record { ret = sleeps; error = none; cache = cache }
finish (returns result, cache) =
    if result == 0
    then record { ret = returns 0; error = some 0; cache = cache }
    else record { ret = returns minus_one; error = some result; cache = cache }

abbrev pub null_tcs : List SgxTcsInfo → Ocall
null_tcs cache = record { ret = returns minus_one; error = some einval; cache = cache }

-- `wake` returns 0.
abbrev pub wake_result : SeEvent → ℕ × SeEvent
wake_result e = (0, wake e)

unfoldable pub u_thread_set_event_ocall : ℕ → List SgxTcsInfo → Ocall
unfolding get_event
u_thread_set_event_ocall tcs cache =
    let (result, cache') = get_event tcs wake_result cache in
    if tcs == 0 then null_tcs cache else finish (returns result, cache')

-- `timeout` is a pointer.
unfoldable pub u_thread_wait_event_ocall : ℕ → Option Timespec → List SgxTcsInfo → Ocall
unfolding get_event wait wait_timeout
u_thread_wait_event_ocall tcs timeout cache =
    let waited : Wait × List SgxTcsInfo = elim timeout [
      | none ↦ get_event tcs wait cache
      | some t ↦ get_event tcs (wait_timeout t) cache
    ] in
    if tcs == 0 then null_tcs cache else finish waited

-- The loop over the threads; the result of each `wake` ends it if it is not 0.
unfoldable pub wake_all : List ℕ → List SgxTcsInfo → Ocall
unfolding get_event
wake_all [] cache = finish (returns 0, cache)
wake_all (tcs ∷ tcss) cache =
    let (result, cache') = get_event tcs wake_result cache in
    let rest = wake_all tcss cache' in if result == 0 then rest else finish (returns result, cache')

-- `tcss` is the array behind its pointer, which may be null.
unfoldable pub u_thread_set_multiple_events_ocall : Option (List ℕ) → List SgxTcsInfo → Ocall
unfolding wake_all
u_thread_set_multiple_events_ocall none cache = null_tcs cache
u_thread_set_multiple_events_ocall (some tcss) cache = wake_all tcss cache

unfoldable pub u_thread_setwait_events_ocall : ℕ → ℕ → Option Timespec → List SgxTcsInfo → Ocall
unfolding u_thread_set_event_ocall u_thread_wait_event_ocall
u_thread_setwait_events_ocall waiter_tcs self_tcs timeout cache =
    let set = u_thread_set_event_ocall waiter_tcs cache in
    let waited = u_thread_wait_event_ocall self_tcs timeout set.cache in
    elim set.ret [ sleeps ↦ set | returns result ↦ if is_negative result then set else waited ]

-- ===== src/Urts/Event/Tests.antt =====
-- Runs of the events, and the theorems at concrete inputs.
use sgx_sdk_rs.Base.{ℕ, ◌-◌, ◌^◌, ◌≡◌, ◌⊎◌, refl, arith, List, [], ◌∷◌, none, some}
use sgx_sdk_rs.Urts.Event
use sgx_sdk_rs.Urts.Event.{
  SeEvent, SgxTcsInfo, sleeps, returns, einval, minus_one, etimedout, Timespec,
}
use sgx_sdk_rs.Urts.Event.Waiting.{
  History, Step, Reach, beginning, IsSemaphore, Reach-IsSemaphore, wake-releases,
}
use sgx_sdk_rs.Urts.Event.Cache.{
  event_of, all_woken, Leaves, u_thread_set_multiple_events_ocall_lem,
}

-- A thread waits: it sleeps.
abbrev one_waits : History
one_waits = record {
  event = record { mutex = 2 ^ 32 - 1; asleep = 1; awake = 0 };
  wakes = 0;
  granted = 0;
}

wait_run : Event.wait Event.new_event ≡ (sleeps, one_waits.event)
unfolding Event.wait Event.new_event
wait_run = refl

time_out_run :
    Event.time_out (record { mutex = 2 ^ 32 - 1; asleep = 0; awake = 1 })
    ≡ (returns etimedout, record { mutex = 0; asleep = 0; awake = 0 })
unfolding Event.time_out
time_out_run = refl

reached_wait : Reach beginning one_waits
unfolding Event.wait Event.new_event
reached_wait = Reach.later Reach.here (Step.enters refl)

Reach-IsSemaphore_example : IsSemaphore one_waits
Reach-IsSemaphore_example = Reach-IsSemaphore one_waits reached_wait (omega arith)

-- And is woken.
abbrev one_woken : History
one_woken = record { event = record { mutex = 0; asleep = 0; awake = 1 }; wakes = 1; granted = 0 }

reached_wake : Reach (record one_waits { event = Event.wake one_waits.event; wakes = 1 }) one_woken
unfolding Event.wake
reached_wake = Reach.here

wake-releases_example :
    (one_woken.event.asleep ≡ 0) × ((Event.resume one_woken.event).0 ≡ returns 0)
wake-releases_example =
    wake-releases one_waits one_woken reached_wait reached_wake (omega arith) refl (omega arith)

abbrev cache : List SgxTcsInfo
cache =
    record { tcs = 0x7000; se_event = one_waits.event }
    ∷ record { tcs = 0x8000; se_event = one_woken.event }
    ∷ []

abbrev threads : List ℕ
threads = 0x7000 ∷ 0x9000 ∷ 0x7000 ∷ []

u_thread_set_multiple_events_ocall_lem_example :
    ((some threads ≡ none)
      × Leaves
          (Event.u_thread_set_multiple_events_ocall (some threads) cache)
          (returns minus_one)
          (some einval)
          (event_of cache))
    ⊎ ((l : List ℕ) × (some threads ≡ some l)
        × Leaves
            (Event.u_thread_set_multiple_events_ocall (some threads) cache)
            (returns 0)
            (some 0)
            (all_woken l (event_of cache)))
u_thread_set_multiple_events_ocall_lem_example =
    u_thread_set_multiple_events_ocall_lem (some threads) cache

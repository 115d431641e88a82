-- ===== src/Urts/Event/Cache.antt =====
-- The cache of events of sgx-urts/src/event.rs as a map from thread control structures to events.
use mathlib.Core.Path.{fun_ext}
use sgx_sdk_rs.Base.{
  ℕ, ◌≡◌, ◌≢◌, ◌⊎◌, inl, inr, refl, ap, ◌∙◌, arith, List, [], ◌∷◌, false, ◌==◌, if◌then◌else◌,
  Bool-cases, ==_iff, Option, none, some,
}
use sgx_sdk_rs.Urts.Event.{
  SeEvent, SgxTcsInfo, Ocall, Wait, returns, new_event, get_event, wake, wake_all, wake_result,
  einval, minus_one, u_thread_set_event_ocall, u_thread_set_multiple_events_ocall,
}

-- Every thread has an event, which is new where the cache has none.
abbrev pub event_of : List SgxTcsInfo → ℕ → SeEvent
event_of [] tcs = new_event
event_of (info ∷ cache) tcs = if info.tcs == tcs then info.se_event else event_of cache tcs

abbrev pub with_event : (ℕ → SeEvent) → ℕ → SeEvent → ℕ → SeEvent
with_event events tcs e t = if tcs == t then e else events t

-- A change at a key, seen behind the first entry of the list that has it and behind another.
change_here {ℓ} :
    {A : Type ℓ} (i key t : ℕ) (new old rest : A)
    → i ≡ key
    → (if i == t then new else rest) ≡ (if key == t then new else if i == t then old else rest)
change_here i key t new old rest same = ground (arith, same)

change_behind {ℓ} :
    {A : Type ℓ} (i key t : ℕ) (new old rest rest' : A)
    → (i == key) ≡ false
    → rest' ≡ (if key == t then new else rest)
    → (if i == t then old else rest') ≡ (if key == t then new else if i == t then old else rest)
change_behind i key t new old rest rest' other same = ground (arith, other, same)

-- `get_event` runs its action on the thread's event, in its place.
get_event-event_of :
    {A : Type 0} (tcs : ℕ) (f : SeEvent → A × SeEvent) (cache : List SgxTcsInfo)
    → let (a, e) = f (event_of cache tcs) in
      ((get_event tcs f cache).0 ≡ a)
      × (event_of (get_event tcs f cache).1 ≡ with_event (event_of cache) tcs e)
unfolding get_event
get_event-event_of tcs f [] = (refl, fun_ext (λ t. refl))
get_event-event_of tcs f (info ∷ cache) = elim (Bool-cases (info.tcs == tcs)) [
  | inl e ↦
      let at = (==_iff _ _).0 e in
      (rw e refl, fun_ext (λ t. rw e (change_here info.tcs tcs t _ _ _ at)))
  | inr e ↦
      let (same, rest) = get_event-event_of tcs f cache in
      (
        rw e same,
        fun_ext (λ t.
            rw e (change_behind info.tcs tcs t _ _ _ _ e (ap (λ (g : ℕ → SeEvent). g t) rest))),
      )
]

-- The effect of a call on the events, and what it leaves with the caller.
abbrev pub Leaves : Ocall → Wait → Option ℕ → (ℕ → SeEvent) → Type 0
Leaves o ret error events = (o.ret ≡ ret) × (o.error ≡ error) × (event_of o.cache ≡ events)

-- The events after each thread of a list has been woken, as often as it stands there.
abbrev pub all_woken : List ℕ → (ℕ → SeEvent) → ℕ → SeEvent
all_woken [] events = events
all_woken (tcs ∷ tcss) events = all_woken tcss (with_event events tcs (wake (events tcs)))

-- `u_thread_set_event_ocall` wakes the event of its thread and no other, returns 0 and reports no
-- error; for the null pointer it returns -1 with EINVAL and changes no event.
pub u_thread_set_event_ocall_lem :
    (tcs : ℕ) (cache : List SgxTcsInfo)
    → let events = event_of cache in
      let o = u_thread_set_event_ocall tcs cache in
      ((tcs ≡ 0) × Leaves o (returns minus_one) (some einval) events)
      ⊎ ((tcs ≢ 0) × Leaves o (returns 0) (some 0) (with_event events tcs (wake (events tcs))))
unfolding u_thread_set_event_ocall
u_thread_set_event_ocall_lem tcs cache = elim (Bool-cases (tcs == 0)) [
  | inl e ↦ inl ((==_iff _ _).0 e, rw e (refl, refl, refl))
  | inr e ↦
      let (result, events) = get_event-event_of tcs wake_result cache in
      inr (λ z. cc (e, (==_iff _ _).1 z), rw (e, result) (refl, refl, events))
]

-- `u_thread_set_multiple_events_ocall` wakes the event of every thread of its array, as often as the
-- thread stands there, returns 0 and reports no error; for a null array it returns -1 with EINVAL and
-- changes no event.
pub u_thread_set_multiple_events_ocall_lem :
    (tcss : Option (List ℕ)) (cache : List SgxTcsInfo)
    → let events = event_of cache in
      let o = u_thread_set_multiple_events_ocall tcss cache in
      ((tcss ≡ none) × Leaves o (returns minus_one) (some einval) events)
      ⊎ ((l : List ℕ) × (tcss ≡ some l) × Leaves o (returns 0) (some 0) (all_woken l events))
unfolding u_thread_set_multiple_events_ocall wake_all
u_thread_set_multiple_events_ocall_lem none cache = inl (refl, (refl, refl, refl))
u_thread_set_multiple_events_ocall_lem (some l) cache = inr (l, refl, woken l cache)
  where
    woken :
        (l : List ℕ) (cache : List SgxTcsInfo)
        → Leaves (wake_all l cache) (returns 0) (some 0) (all_woken l (event_of cache))
    woken [] cache = (refl, refl, refl)
    woken (tcs ∷ l) cache =
        let (result, events) = get_event-event_of tcs wake_result cache in
        let rest = woken l (get_event tcs wake_result cache).1 in
        rw result (rest.0, rest.1, rest.2 ∙ ap (all_woken l) events)

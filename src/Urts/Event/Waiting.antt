-- ===== src/Urts/Event/Waiting.antt =====
-- The waits and wake-ups of one event of sgx-urts/src/event.rs, with one thread that waits at a time:
-- an event belongs to one thread control structure.
use sgx_sdk_rs.Base.{
  ℕ, suc, ◌+◌, ◌-◌, ◌%◌, ◌^◌, ◌≤◌, ◌<◌, ◌≡◌, refl, ◌∙◌, arith, ◌==◌, if◌then◌else◌,
}
use sgx_sdk_rs.Urts.Event.{
  SeEvent, Wait, sleeps, returns, new_event, wait, resume, time_out, wake, notify_one, etimedout,
}

-- The event with what has happened on it: the wake-ups, and the waits that returned 0.
pub record History : Type 0 where
  pub event : SeEvent
  pub wakes : ℕ
  pub granted : ℕ

abbrev pub beginning : History
beginning = record { event = new_event; wakes = 0; granted = 0 }

-- The end of a section: a wait that returns 0 is counted.
abbrev pub counted : History → Wait × SeEvent → History
counted h (sleeps, e) = record h { event = e }
counted h (returns v, e) = record h {
  event = e;
  granted = if v == 0 then suc h.granted else h.granted;
}

-- A section of the code runs. A wait is entered only while no thread waits.
pub data Step (h : History) : History → Type 0 where
  enters : h.event.asleep + h.event.awake ≡ 0 → Step h (counted h (wait h.event))
  wakes_up : Step h (record h { event = notify_one h.event })
  resumes : 0 < h.event.awake → Step h (counted h (resume h.event))
  times_out : 0 < h.event.awake → Step h (counted h (time_out h.event))
  is_woken : Step h (record h { event = wake h.event; wakes = suc h.wakes })

pub data Reach (h : History) : History → Type 0 where
  here : Reach h h
  later : {h' h'' : History} → Reach h h' → Step h' h'' → Reach h h''

abbrev waiting : History → ℕ
waiting h = h.event.asleep + h.event.awake

-- What the number stands for, while there have been fewer than 2 ^ 31 wake-ups.
record Accounts (h : History) : Type 0 where
  alone : waiting h ≤ 1
  paid : h.granted ≤ h.wakes
  balance : h.event.mutex ≡ (h.wakes - h.granted + (2 ^ 32 - waiting h)) % 2 ^ 32
  slept : 0 < h.event.asleep → h.granted ≡ h.wakes

Step-Accounts : {h h' : History} → Step h h' → h'.wakes < 2 ^ 31 → Accounts h → Accounts h'
unfolding wait resume time_out wake
Step-Accounts {h} (enters none_waits) few a = ground arith
Step-Accounts {h} wakes_up few a = ground arith
Step-Accounts {h} (resumes some_awake) few a = ground arith
Step-Accounts {h} (times_out some_awake) few a = ground arith
Step-Accounts {h} is_woken few a = ground arith

Step-wakes : {h h' : History} → Step h h' → h.wakes ≤ h'.wakes
Step-wakes {h} (enters none_waits) = ground arith
Step-wakes {h} wakes_up = omega arith
Step-wakes {h} (resumes some_awake) = ground arith
Step-wakes {h} (times_out some_awake) = ground arith
Step-wakes {h} is_woken = omega arith

Reach-wakes : {h h' : History} → Reach h h' → h.wakes ≤ h'.wakes
Reach-wakes here = omega arith
Reach-wakes (later before step) = omega (arith, Reach-wakes before, Step-wakes step)

Reach-Accounts : {h h' : History} → Accounts h → Reach h h' → h'.wakes < 2 ^ 31 → Accounts h'
Reach-Accounts a here few = a
Reach-Accounts a (later before step) few =
    Step-Accounts step few (Reach-Accounts a before (omega (arith, few, Step-wakes step)))

beginning-Accounts : Accounts beginning
unfolding new_event
beginning-Accounts = record {
  alone = omega arith;
  paid = omega arith;
  balance = refl;
  slept = λ _. refl;
}

joined : {h h1 h2 : History} → Reach h h1 → Reach h1 h2 → Reach h h2
joined first here = first
joined first (later second step) = later (joined first second) step

-- What a counting semaphore does: a wait takes a wake-up that is left, and sleeps if there is none.
abbrev pub take_or : Wait → ℕ → Wait
take_or otherwise left = if left == 0 then otherwise else returns 0

pub record IsSemaphore (h : History) : Type 0 where
  pub paid : h.granted ≤ h.wakes
  pub enter :
      h.event.asleep + h.event.awake ≡ 0 → (wait h.event).0 ≡ take_or sleeps (h.wakes - h.granted)
  pub resume_awake : 0 < h.event.awake → (resume h.event).0 ≡ take_or sleeps (h.wakes - h.granted)
  pub late :
      0 < h.event.awake → (time_out h.event).0 ≡ take_or (returns etimedout) (h.wakes - h.granted)
  pub slept : 0 < h.event.asleep → h.wakes ≡ h.granted

Accounts-IsSemaphore : (h : History) → h.wakes < 2 ^ 31 → Accounts h → IsSemaphore h
unfolding wait resume time_out
Accounts-IsSemaphore h few a = record {
  paid = a.paid;
  enter = λ none_waits. ground arith;
  resume_awake = λ some_awake. ground arith;
  late = λ some_awake. ground arith;
  slept = λ some_asleep. omega (arith, a.slept some_asleep);
}

-- While there have been fewer than 2 ^ 31 wake-ups, and one thread at most waits at a time, an event
-- is a counting semaphore, in whatever order the sections of waits and wake-ups run and however often
-- the thread wakes up for no reason: every wait that returned 0 took a wake-up of its own, a wait
-- returns 0 at once if a wake-up is left, and a thread sleeps only while none is left.
pub Reach-IsSemaphore : (h : History) → Reach beginning h → h.wakes < 2 ^ 31 → IsSemaphore h
Reach-IsSemaphore h reached few =
    Accounts-IsSemaphore h few (Reach-Accounts beginning-Accounts reached few)

-- No wake-up is lost: from the moment a waiting thread is woken, whatever runs in between, and until
-- its wait returns, it does not sleep, and the next section of its wait returns 0.
pub wake-releases :
    (h h' : History)
    → Reach beginning h
    → Reach (record h { event = wake h.event; wakes = suc h.wakes }) h'
    → h'.wakes < 2 ^ 31
    → h'.granted ≡ h.granted
    → 0 < h'.event.asleep + h'.event.awake
    → (h'.event.asleep ≡ 0) × ((resume h'.event).0 ≡ returns 0)
wake-releases h h' before after few same some_waits =
    let all = joined (later before is_woken) after in
    let left = Reach-IsSemaphore h (before) (omega (arith, few, Reach-wakes after)) in
    let s = Reach-IsSemaphore h' all few in
    let unpaid : h'.granted < h'.wakes = omega (arith, left.paid, same, Reach-wakes after) in
    let awake : h'.event.asleep ≡ 0 = nobody_sleeps s unpaid in
    (awake, s.resume_awake (omega (arith, awake, some_waits)) ∙ taken unpaid)
  where
    nobody_sleeps : {h : History} → IsSemaphore h → h.granted < h.wakes → h.event.asleep ≡ 0
    nobody_sleeps {h} s unpaid = ground (arith, unpaid, s.slept)

    taken : {g w : ℕ} → g < w → take_or sleeps (w - g) ≡ returns 0
    taken unpaid = ground (arith, unpaid)

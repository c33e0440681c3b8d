-- ===== src/Fifo/Threads.antt =====
-- Threads that enqueue on a fifo, dequeue from it and enable it for polling, with the functions of
-- src/include/xdp2/fifo.h that they call. A step is what a thread does under one lock, so that the
-- steps of threads come in any order. `sent` and `received` have the messages that were queued and taken,
-- the first one first. The threads do not bind or unbind the fifo, and do not change themselves what
-- is ready in a poll group.
use xdp.Base.{
  ℕ, Bool, false, List, [], ◌∷◌, ◌++◌, ◌≡◌, Option, none, some, put, length, All, subst,
  some-injective, Option-cases, inl, inr, sym, ap, ◌∙◌,
}
use xdp.Fifo.{Fifo, count, bump_prod}
use xdp.Fifo.Sections.{
  Enqueued, Dequeued, enqueue_locked, enqueue_woken, dequeue_locked, dequeue_woken,
}
use xdp.Fifo.Groups.{
  System, Task, count_enqueue_failed, count_dequeue_failed, perform, after_enqueue, after_dequeue,
  make_non_readable_after_dequeue,
}
use xdp.Fifo.Setup.{enable_read_poll, enable_write_poll, disable_read_poll, disable_write_poll}

-- A thread has tasks left, none when it is between two calls, or waits for space or for a message.
pub data Thread : Type 0 where
  going : List Task → Thread
  enqueue_waits : List ℕ → Thread
  dequeue_waits : ℕ → Thread

pub record World : Type 0 where
  pub system : System
  pub threads : ℕ → Thread
  pub sent : List (List ℕ)
  pub received : List (List ℕ)

-- A call by a thread that is between two calls, the next task of a call, or a wake-up
pub data Move : Type 0 where
  enqueue : List ℕ → Bool → Move
  dequeue : ℕ → Bool → Move
  enable_read : Move
  enable_write : Move
  disable_read : Move
  disable_write : Move
  proceed : Move
  wake : Move

-- The system and the thread `t` changed
abbrev pub set_thread : ℕ → Thread → System → World → World
set_thread t thread system st = record st { system = system; threads = put t thread st.threads }

-- The fifo and the thread `t` changed
abbrev pub set_fifo : ℕ → Thread → Fifo → World → World
set_fifo t thread fifo st = set_thread t thread (record st.system { fifo = fifo }) st

-- ___xdp2_fifo_sw_enqueue after the lock is given up
unfoldable pub enqueue_left : ℕ → List ℕ → Enqueued → World → Option World
enqueue_left t message Enqueued.asserted st = none
enqueue_left t message (Enqueued.refused fifo) st =
    some (set_fifo t (going (count_enqueue_failed ∷ [])) fifo st)
enqueue_left t message (Enqueued.waiting fifo) st =
    some (set_fifo t (enqueue_waits message) fifo st)
enqueue_left t message (Enqueued.queued was_empty full fifo) st =
    some (record (set_fifo t (going (after_enqueue was_empty full)) fifo st) {
      sent = st.sent ++ (message ∷ []);
    })

-- ___xdp2_fifo_enqueue, to the release of the lock
unfoldable pub start_enqueue : ℕ → List ℕ → Bool → World → Option World
start_enqueue t message wait st =
    let requested : Fifo = record st.system.fifo {
      stats = bump_prod (λ p. record p { requests = count p.requests }) st.system.fifo.stats;
    } in
    enqueue_left t message (enqueue_locked message wait requested) st

-- What comes of an enqueue that must succeed
abbrev must_queue : Enqueued → Enqueued
must_queue Enqueued.asserted = Enqueued.asserted
must_queue (Enqueued.refused fifo) = Enqueued.asserted
must_queue (Enqueued.waiting fifo) = Enqueued.waiting fifo
must_queue (Enqueued.queued was_empty full fifo) = Enqueued.queued was_empty full fifo

-- ___xdp2_fifo_enqueue_nocheck, to the release of the lock; no thread below calls it.
unfoldable pub start_enqueue_nocheck : ℕ → List ℕ → World → Option World
start_enqueue_nocheck t message st =
    let requested : Fifo = record st.system.fifo {
      stats = bump_prod (λ p. record p { requests = count p.requests }) st.system.fifo.stats;
    } in
    enqueue_left t message (must_queue (enqueue_locked message false requested)) st

-- ___xdp2_fifo_sw_dequeue after the lock is given up
unfoldable pub dequeue_left : ℕ → ℕ → Dequeued → World → Option World
dequeue_left t num Dequeued.asserted st = none
dequeue_left t num (Dequeued.refused fifo) st =
    some
      (set_fifo t (going (make_non_readable_after_dequeue ++ (count_dequeue_failed ∷ []))) fifo st)
dequeue_left t num (Dequeued.waiting fifo) st = some (set_fifo t (dequeue_waits num) fifo st)
dequeue_left t num (Dequeued.taken message non_readable unblock fifo) st =
    some (record (set_fifo t (going (after_dequeue non_readable unblock)) fifo st) {
      received = st.received ++ (message ∷ []);
    })

-- ___xdp2_fifo_dequeue, to the release of the lock
unfoldable pub start_dequeue : ℕ → ℕ → Bool → World → Option World
start_dequeue t num wait st = dequeue_left t num (dequeue_locked num wait st.system.fifo) st

-- What a thread that is between two calls does
unfoldable pub begin_call : ℕ → Move → World → Option World
begin_call t (enqueue message wait) st = start_enqueue t message wait st
begin_call t (dequeue num wait) st = start_dequeue t num wait st
begin_call t enable_read st =
    let done = enable_read_poll st.system in some (set_thread t (going done.0) done.1 st)
begin_call t enable_write st =
    let done = enable_write_poll st.system in some (set_thread t (going done.0) done.1 st)
begin_call t disable_read st = some (set_thread t (going []) (disable_read_poll st.system) st)
begin_call t disable_write st = some (set_thread t (going []) (disable_write_poll st.system) st)
begin_call t proceed st = none
begin_call t wake st = none

-- The next task of a thread
unfoldable pub continue : ℕ → Task → List Task → World → World
continue t task tasks st =
    let done = perform task st.system in set_thread t (going (done.0 ++ tasks)) done.1 st

-- A step of the thread `t`; `none` where it cannot make this move or an assertion fails.
unfoldable pub move : ℕ → Move → Thread → World → Option World
move t m (going []) st = begin_call t m st
move t proceed (going (task ∷ tasks)) st = some (continue t task tasks st)
move t wake (enqueue_waits message) st =
    enqueue_left t message (enqueue_woken message st.system.fifo) st
move t wake (dequeue_waits num) st = dequeue_left t num (dequeue_woken num st.system.fifo) st
move t m thread st = none

abbrev pub step : ℕ → Move → World → Option World
step t m st = move t m (st.threads t) st

-- A call with a message of `num` words
abbrev pub MoveOf : ℕ → Move → Type 0
MoveOf num (enqueue message wait) = length message ≡ num
MoveOf num (dequeue words wait) = words ≡ num
MoveOf num m = Unit

-- What threads can come to that make such moves only.
pub data Reachable (Allowed : Move → Type 0) (begin : World) : World → Type 0 where
  begun : Reachable Allowed begin begin
  stepped :
      (st st' : World)
      → Reachable Allowed begin st
      → (t : ℕ) (m : Move) → Allowed m
      → step t m st ≡ some st'
      → Reachable Allowed begin st'

-- The state after these moves, if they can be made
abbrev pub schedule : List (ℕ × Move) → World → Option World
schedule [] st = some st
schedule (m ∷ moves) st = elim (step m.0 m.1 st) [ none ↦ none | some st' ↦ schedule moves st' ]

pub schedule-Reachable :
    (Allowed : Move → Type 0) (moves : List (ℕ × Move)) (begin st st' : World)
    → Reachable Allowed begin st
    → All (λ m. Allowed m.1) moves
    → schedule moves st ≡ some st'
    → Reachable Allowed begin st'
schedule-Reachable Allowed [] begin st st' before ok h =
    subst (Reachable Allowed begin) (some-injective h) before
schedule-Reachable Allowed (m ∷ moves) begin st st' before ok h =
    let next : Option World → Option World =
      λ o. elim o [ none ↦ none | some st' ↦ schedule moves st' ] in
    elim (Option-cases (step m.0 m.1 st)) [
      | inl stopped ↦ let never : none ≡ some st' = sym (ap next stopped) ∙ h in absurd (cc)
      | inr went ↦
          schedule-Reachable Allowed moves begin went.0 st'
            (stepped st went.0 before m.0 m.1 ok.0 went.1) ok.1 (sym (ap next went.1) ∙ h)
    ]

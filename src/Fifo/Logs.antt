-- ===== src/Fifo/Logs.antt =====
-- The messages that threads take off a fifo are those that they queued, in that order, whatever the
-- order of their steps: ___xdp2_fifo_enqueue and ___xdp2_fifo_dequeue of src/include/xdp2/fifo.h.
use xdp.Base.{
  ℕ, true, List, [], ◌∷◌, ◌++◌, ◌≡◌, refl, sym, ap, ◌∙◌, some, put, put-cases, length,
  some-injective, subst,
}
use mathlib.Core.List.{append_assoc}
use xdp.Fifo.Sections.{Enqueued, Dequeued}
use xdp.Fifo.Groups.{System}
use xdp.Fifo.Threads.{
  enqueue, dequeue, enable_read, enable_write, disable_read, disable_write, proceed, wake, MoveOf,
  begun, stepped, World, Thread, going, enqueue_waits, dequeue_waits, Move, Reachable, set_thread,
  move, begin_call, continue, enqueue_left, dequeue_left, start_enqueue, start_dequeue,
}
use xdp.Fifo.Carries.{
  Carries, Carries-counted, EnqueuedOk, DequeuedOk, enqueue_locked-Ok, enqueue_woken-Ok,
  dequeue_locked-Ok, dequeue_woken-Ok,
}
use xdp.Fifo.Counted.{
  Counted, perform-Counted, enable_read_poll-Counted, enable_write_poll-Counted,
  disable_read_poll-Counted, disable_write_poll-Counted,
}

-- What a waiting thread has kept
abbrev ThreadOf : ℕ → Thread → Type 0
ThreadOf num (going tasks) = Unit
ThreadOf num (enqueue_waits message) = length message ≡ num
ThreadOf num (dequeue_waits words) = words ≡ num

-- What the fifo carries is what was sent and not yet received.
pub record InOrder (num : ℕ) (st : World) : Type 0 where
  pub messages : List (List ℕ)
  pub carries : Carries num st.system.fifo messages
  pub order : st.sent ≡ st.received ++ messages
  pub threads : (t : ℕ) → ThreadOf num (st.threads t)

-- The threads after one of them has changed
threads_put :
    (num t : ℕ) (thread : Thread) (threads : ℕ → Thread)
    → ThreadOf num thread
    → ((r : ℕ) → ThreadOf num (threads r))
    → (r : ℕ) → ThreadOf num (put t thread threads r)
threads_put num t thread threads here there =
    put-cases (λ r th. ThreadOf num th) t thread threads here (λ r d. there r)

advanced :
    (num t : ℕ) (thread : Thread) (s : System) (st : World)
    → ThreadOf num thread
    → Counted st.system s
    → InOrder num st
    → InOrder num (set_thread t thread s st)
advanced num t thread s st own counted ok = record {
  messages = ok.messages;
  carries = counted num ok.messages ok.carries;
  order = ok.order;
  threads = threads_put num t thread st.threads own ok.threads;
}

enqueue_left-InOrder :
    (num t : ℕ) (message : List ℕ) (e : Enqueued) (st st' : World)
    → length message ≡ num
    → (ok : InOrder num st) → EnqueuedOk num message ok.messages e
    → enqueue_left t message e st ≡ some st'
    → InOrder num st'
unfolding enqueue_left
enqueue_left-InOrder num t message Enqueued.asserted st st' len ok left h = absurd (cc)
enqueue_left-InOrder num t message (Enqueued.refused fifo) st st' len ok left h =
    subst (InOrder num) (some-injective h) (record {
      messages = ok.messages;
      carries = left;
      order = ok.order;
      threads = threads_put num t _ st.threads tt ok.threads;
    })
enqueue_left-InOrder num t message (Enqueued.waiting fifo) st st' len ok left h =
    subst (InOrder num) (some-injective h) (record {
      messages = ok.messages;
      carries = left;
      order = ok.order;
      threads = threads_put num t _ st.threads len ok.threads;
    })
enqueue_left-InOrder num t message (Enqueued.queued was_empty full fifo) st st' len ok left h =
    subst (InOrder num) (some-injective h) (record {
      messages = ok.messages ++ (message ∷ []);
      carries = left;
      order = rw ok.order (append_assoc st.received ok.messages (message ∷ []));
      threads = threads_put num t _ st.threads tt ok.threads;
    })

dequeue_left-InOrder :
    (num t : ℕ) (d : Dequeued) (st st' : World)
    → (ok : InOrder num st) → DequeuedOk num ok.messages d
    → dequeue_left t num d st ≡ some st'
    → InOrder num st'
unfolding dequeue_left
dequeue_left-InOrder num t Dequeued.asserted st st' ok left h = absurd (cc)
dequeue_left-InOrder num t (Dequeued.refused fifo) st st' ok left h =
    subst (InOrder num) (some-injective h) (record {
      messages = ok.messages;
      carries = left;
      order = ok.order;
      threads = threads_put num t _ st.threads tt ok.threads;
    })
dequeue_left-InOrder num t (Dequeued.waiting fifo) st st' ok left h =
    subst (InOrder num) (some-injective h) (record {
      messages = ok.messages;
      carries = left;
      order = ok.order;
      threads = threads_put num t _ st.threads refl ok.threads;
    })
dequeue_left-InOrder num t (Dequeued.taken message non_readable unblock fifo) st st' ok left h =
    subst (InOrder num) (some-injective h) (record {
      messages = left.0;
      carries = left.2;
      order =
          ok.order
          ∙ ap (λ ms. st.received ++ ms) left.1
          ∙ sym (append_assoc st.received (message ∷ []) left.0);
      threads = threads_put num t _ st.threads tt ok.threads;
    })

begin_call-InOrder :
    (num t : ℕ) (m : Move) (st st' : World)
    → MoveOf num m
    → InOrder num st
    → begin_call t m st ≡ some st'
    → InOrder num st'
unfolding begin_call start_enqueue start_dequeue
begin_call-InOrder num t (enqueue message wait) st st' len ok h =
    enqueue_left-InOrder num t message _ st st' len ok
      (enqueue_locked-Ok num message wait _ ok.messages
        (Carries-counted num st.system.fifo ok.messages _ _ _ _ ok.carries) len)
      h
begin_call-InOrder num t (dequeue words wait) st st' e ok h =
    dequeue_left-InOrder num t _ st st' ok
      (dequeue_locked-Ok num wait st.system.fifo ok.messages ok.carries) (rw e at h)
begin_call-InOrder num t enable_read st st' e ok h =
    subst (InOrder num) (some-injective h)
      (advanced num t _ _ st tt (enable_read_poll-Counted st.system) ok)
begin_call-InOrder num t enable_write st st' e ok h =
    subst (InOrder num) (some-injective h)
      (advanced num t _ _ st tt (enable_write_poll-Counted st.system) ok)
begin_call-InOrder num t disable_read st st' e ok h =
    subst (InOrder num) (some-injective h)
      (advanced num t _ _ st tt (disable_read_poll-Counted st.system) ok)
begin_call-InOrder num t disable_write st st' e ok h =
    subst (InOrder num) (some-injective h)
      (advanced num t _ _ st tt (disable_write_poll-Counted st.system) ok)
begin_call-InOrder num t proceed st st' e ok h = absurd (cc)
begin_call-InOrder num t wake st st' e ok h = absurd (cc)

move-InOrder :
    (num t : ℕ) (m : Move) (thread : Thread) (st st' : World)
    → MoveOf num m
    → ThreadOf num thread
    → InOrder num st
    → move t m thread st ≡ some st'
    → InOrder num st'
unfolding move continue
move-InOrder num t m (going []) st st' e own ok h = begin_call-InOrder num t m st st' e ok h
move-InOrder num t proceed (going (task ∷ tasks)) st st' e own ok h =
    subst (InOrder num) (some-injective h)
      (advanced num t _ _ st tt (perform-Counted task st.system) ok)
move-InOrder num t wake (enqueue_waits message) st st' e own ok h =
    enqueue_left-InOrder num t message _ st st' own ok
      (enqueue_woken-Ok num message true _ ok.messages ok.carries own) h
move-InOrder num t wake (dequeue_waits words) st st' e own ok h =
    dequeue_left-InOrder num t _ st st' ok
      (dequeue_woken-Ok num true st.system.fifo ok.messages ok.carries) (rw own at h)
move-InOrder num t m thread st st' e own ok h = absurd (cc)

-- From a state where the fifo holds what was sent and not yet received, and every message has the same
-- length, not above that of an entry: whatever the threads do with messages of that length, and in
-- whatever order, the fifo holds what was sent and not yet received, so that the messages are received
-- in the order in which they were sent, none twice and none lost.
pub Reachable-InOrder :
    (num : ℕ) (begin st : World)
    → InOrder num begin
    → Reachable (MoveOf num) begin st
    → InOrder num st
Reachable-InOrder num begin st ok begun = ok
Reachable-InOrder num begin _ ok (stepped st st' before t m e h) =
    let here = Reachable-InOrder num begin st ok before in
    move-InOrder num t m (st.threads t) st st' e (here.threads t) here h

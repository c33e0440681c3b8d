-- ===== src/Fifo/Wakeups.antt =====
-- No wake-up of a reader is lost, whatever the order of the threads' steps: ___xdp2_fifo_enqueue,
-- ___xdp2_fifo_dequeue and the functions that they call, of src/include/xdp2/fifo.h.
use xdp.Base.{ℕ, true, false, [], ◌∷◌, ◌≡◌, inl, inr, refl, subst, some, some-injective}
use xdp.Fifo.{is_empty}
use xdp.Fifo.Threads.{
  MoveOf, World, Thread, Move, going, enqueue_waits, dequeue_waits, proceed, wake, Reachable, begun,
  stepped, move,
}
use xdp.Fifo.Logs.{InOrder, Reachable-InOrder}
use xdp.Fifo.Awake.{ready_bit, mask_bit, PendingThread}
use xdp.Fifo.Entered.{enqueue_woken-Awake, dequeue_woken-Awake}
use xdp.Fifo.Continued.{AwakeWorld, continue-Awake}
use xdp.Fifo.Started.{enqueue_left-Awake, dequeue_left-Awake, begin_call-Awake}

move-Awake :
    (num_words g num t : ℕ) (m : Move) (thread : Thread) (st st' : World)
    → InOrder num_words st
    → AwakeWorld g num st
    → st.threads t ≡ thread
    → move t m thread st ≡ some st'
    → AwakeWorld g num st'
unfolding move
move-Awake words g num t m (going []) st st' ok a e h =
    begin_call-Awake g num t st st' a (λ p. subst (PendingThread g num) e p) m h
move-Awake words g num t proceed (going (task ∷ tasks)) st st' ok a e h =
    subst (AwakeWorld g num) (some-injective h) (continue-Awake g num t st a task tasks words ok e)
move-Awake words g num t wake (enqueue_waits message) st st' ok a e h =
    enqueue_left-Awake g num t st st' a (λ p. subst (PendingThread g num) e p) message _
      (enqueue_woken-Awake g num st.system.fifo (is_empty st.system.fifo) a.bound refl message) h
move-Awake words g num t wake (dequeue_waits num_words) st st' ok a e h =
    dequeue_left-Awake g num t st st' a (λ p. subst (PendingThread g num) e p) num_words _
      (dequeue_woken-Awake g num st.system.fifo (is_empty st.system.fifo) a.bound refl num_words) h
move-Awake words g num t m thread st st' ok a e h = absurd (cc)

-- From a state where this holds, where the fifo is bound to the group under a number other than the one
-- for writing, and where it holds what was sent and not yet received: whatever the threads do, and in
-- whatever order, a fifo that has messages and is enabled for reading in its poll group is ready there,
-- or a thread has a task left that makes it so.
pub Reachable-Awake :
    (words g num : ℕ) (begin st : World)
    → InOrder words begin
    → AwakeWorld g num begin
    → Reachable (MoveOf words) begin st
    → AwakeWorld g num st
Reachable-Awake words g num begin st ok a begun = a
Reachable-Awake words g num begin _ ok a (stepped st st' before t m e h) =
    let here = Reachable-InOrder words begin st ok before in
    move-Awake words g num t m (st.threads t) st st' here
      (Reachable-Awake words g num begin st ok a before) refl h

-- A thread that is between two calls, or waits
abbrev pub Quiet : Thread → Type 0
Quiet (going tasks) = tasks ≡ []
Quiet (enqueue_waits message) = Unit
Quiet (dequeue_waits num_words) = Unit

Quiet-Pending : (g num : ℕ) (thread : Thread) → Quiet thread → PendingThread g num thread → ⊥
Quiet-Pending g num (going []) q p = p
Quiet-Pending g num (going (task ∷ tasks)) q p = absurd (cc)
Quiet-Pending g num (enqueue_waits message) q p = p
Quiet-Pending g num (dequeue_waits num_words) q p = p

-- From a state where a fifo that has messages and is enabled is ready or about to be made so, where it is
-- bound to the group under a number other than the one for writing, and where it holds what was sent
-- and not yet received: whatever the threads do, and in whatever order, once no thread has a task
-- left, a fifo that has messages and is enabled for reading is ready in its poll group.
pub Reachable-ready :
    (words g num : ℕ) (begin st : World)
    → InOrder words begin
    → AwakeWorld g num begin
    → Reachable (MoveOf words) begin st
    → ((t : ℕ) → Quiet (st.threads t))
    → is_empty st.system.fifo ≡ false
    → mask_bit g num st.system ≡ true
    → ready_bit g num st.system ≡ true
Reachable-ready words g num begin st ok a reach quiet some_in on =
    elim ((Reachable-Awake words g num begin st ok a reach).promise some_in on) [
      | inl ready ↦ ready
      | inr pending ↦
          absurd (Quiet-Pending g num (st.threads pending.0) (quiet pending.0) pending.1)
    ]

-- ===== src/Fifo/Others.antt =====
-- A step of a thread leaves the other threads where they are: the threads of src/include/xdp2/fifo.h.
use xdp.Base.{
  ℕ, List, [], ◌∷◌, ◌≡◌, ◌≢◌, refl, sym, ap, ◌∙◌, Option, none, some, put, put-other, All,
  some-injective, Option-cases, inl, inr,
}
use xdp.Fifo.Sections.{Enqueued, Dequeued}
use xdp.Fifo.Threads.{
  World, Thread, Move, going, enqueue_waits, dequeue_waits, enqueue, dequeue, enable_read,
  enable_write, disable_read, disable_write, proceed, wake, step, schedule, move, begin_call,
  continue, enqueue_left, dequeue_left, start_enqueue, start_dequeue,
}

module _ (t r : ℕ) (d : r ≢ t) (st st' : World) where
  -- The thread `t` changed, and not `r`
  kept :
      (thread : Thread) (next : World)
      → next.threads ≡ put t thread st.threads
      → some next ≡ some st'
      → st'.threads r ≡ st.threads r
  kept thread next e h =
      ap (λ s. s.threads r) (sym (some-injective h))
      ∙ ap (λ threads. threads r) e
      ∙ put-other t thread st.threads r d

  enqueue_left-other :
      (message : List ℕ) (e : Enqueued)
      → enqueue_left t message e st ≡ some st'
      → st'.threads r ≡ st.threads r
  unfolding enqueue_left
  enqueue_left-other message Enqueued.asserted h = absurd (cc)
  enqueue_left-other message (Enqueued.refused fifo) h = kept _ _ refl h
  enqueue_left-other message (Enqueued.waiting fifo) h = kept _ _ refl h
  enqueue_left-other message (Enqueued.queued was_empty full fifo) h = kept _ _ refl h

  dequeue_left-other :
      (words : ℕ) (e : Dequeued)
      → dequeue_left t words e st ≡ some st'
      → st'.threads r ≡ st.threads r
  unfolding dequeue_left
  dequeue_left-other words Dequeued.asserted h = absurd (cc)
  dequeue_left-other words (Dequeued.refused fifo) h = kept _ _ refl h
  dequeue_left-other words (Dequeued.waiting fifo) h = kept _ _ refl h
  dequeue_left-other words (Dequeued.taken message non_readable unblock fifo) h = kept _ _ refl h

  begin_call-other : (m : Move) → begin_call t m st ≡ some st' → st'.threads r ≡ st.threads r
  unfolding begin_call start_enqueue start_dequeue
  begin_call-other (enqueue message wait) h = enqueue_left-other message _ h
  begin_call-other (dequeue words wait) h = dequeue_left-other words _ h
  begin_call-other enable_read h = kept _ _ refl h
  begin_call-other enable_write h = kept _ _ refl h
  begin_call-other disable_read h = kept _ _ refl h
  begin_call-other disable_write h = kept _ _ refl h
  begin_call-other proceed h = absurd (cc)
  begin_call-other wake h = absurd (cc)

  move-other :
      (m : Move) (thread : Thread) → move t m thread st ≡ some st' → st'.threads r ≡ st.threads r
  unfolding move continue
  move-other m (going []) h = begin_call-other m h
  move-other proceed (going (task ∷ tasks)) h = kept _ _ refl h
  move-other wake (enqueue_waits message) h = enqueue_left-other message _ h
  move-other wake (dequeue_waits words) h = dequeue_left-other words _ h
  move-other m thread h = absurd (cc)

-- A thread that makes none of the moves is where it was.
pub schedule-other :
    (r : ℕ) (moves : List (ℕ × Move)) (st st' : World)
    → All (λ m. r ≢ m.0) moves
    → schedule moves st ≡ some st'
    → st'.threads r ≡ st.threads r
schedule-other r [] st st' apart h = ap (λ s. s.threads r) (sym (some-injective h))
schedule-other r (m ∷ moves) st st' apart h =
    let next : Option World → Option World =
      λ o. elim o [ none ↦ none | some s ↦ schedule moves s ] in
    elim (Option-cases (step m.0 m.1 st)) [
      | inl stopped ↦ let never : none ≡ some st' = sym (ap next stopped) ∙ h in absurd (cc)
      | inr went ↦
          schedule-other r moves went.0 st' apart.1 (sym (ap next went.1) ∙ h)
          ∙ move-other m.0 r apart.0 st went.0 m.1 (st.threads m.0) went.1
    ]

-- ===== src/Fifo/Continued.antt =====
-- A step of a thread that has tasks left keeps a reader from missing messages: src/include/xdp2/fifo.h.
use xdp.Base.{
  ℕ, false, List, ◌∷◌, ◌++◌, ◌≡◌, ◌≢◌, ◌⊎◌, inl, inr, sym, subst, ◌∙◌, put, put-here, put-other,
  put-cases, Bool-cases, ◌==◌, arith,
}
use xdp.Fifo.{Fifo, is_empty}
use xdp.Fifo.Groups.{Task, perform}
use xdp.Fifo.Threads.{World, Thread, going, continue, set_fifo}
use xdp.Fifo.Logs.{InOrder}
use xdp.Fifo.Awake.{Pending, Guarded, PendingThread, GuardedThread, BoundTo, Awake}
use xdp.Fifo.Performed.{SameFifo, perform-Performed}

abbrev pub AwakeWorld : ℕ → ℕ → World → Type 0
AwakeWorld g num st = Awake g num st.system st.threads

bound_still : (g num : ℕ) (f f' : Fifo) → SameFifo f f' → BoundTo g num f → BoundTo g num f'
bound_still g num f f' e b = record {
  group = e.read_poll ∙ b.group;
  number = e.read_poll_num ∙ b.number;
  apart = rw e.write_poll_num b.apart;
}

module _ (g num t : ℕ) (st : World) (a : AwakeWorld g num st) where
  -- A thread with something promised, after the thread `t` has changed
  pub elsewhere :
      (thread : Thread)
      → (PendingThread g num (st.threads t) → PendingThread g num thread)
      → ((r : ℕ) × PendingThread g num (st.threads r))
      → (r : ℕ) × PendingThread g num (put t thread st.threads r)
  elsewhere thread keeps p = (
    p.0,
    put-cases (λ r th. PendingThread g num (st.threads r) → PendingThread g num th) t thread
        st.threads keeps (λ r d q. q) p.0 p.1,
  )

  pub guarded_still :
      (thread : Thread)
      → GuardedThread g num thread
      → (r : ℕ) → GuardedThread g num (put t thread st.threads r)
  guarded_still thread own =
      put-cases (λ r th. GuardedThread g num th) t thread st.threads own (λ r d. a.guarded r)

  pub own :
      (thread : Thread)
      → PendingThread g num thread
      → (r : ℕ) × PendingThread g num (put t thread st.threads r)
  own thread p = (t, rw (put-here t thread st.threads) p)

  -- The thread, which promised nothing, has done its work under the lock of the fifo.
  pub entered :
      (thread : Thread) (fifo : Fifo)
      → (PendingThread g num (st.threads t) → ⊥)
      → BoundTo g num fifo
      → GuardedThread g num thread
      → (is_empty fifo ≡ false → (is_empty st.system.fifo ≡ false) ⊎ PendingThread g num thread)
      → AwakeWorld g num (set_fifo t thread fifo st)
  entered thread fifo nothing b guarded some_in = record {
    bound = b;
    guarded = guarded_still thread guarded;
    promise = λ now on. elim (some_in now) [
      | inr pending ↦ inr (own thread pending)
      | inl before ↦ elim (a.promise before on) [
        | inl ready ↦ inl ready
        | inr pending ↦ inr (elsewhere thread (λ p. absurd (nothing p)) pending)
      ]
    ];
  }

  pub continue-Awake :
      (task : Task) (tasks : List Task) (num_words : ℕ)
      → InOrder num_words st
      → st.threads t ≡ going (task ∷ tasks)
      → AwakeWorld g num (continue t task tasks st)
  unfolding continue
  continue-Awake task tasks num_words ok e =
      let guards : Guarded g num (task ∷ tasks) = subst (GuardedThread g num) e (a.guarded t) in
      let done =
        perform-Performed g num task tasks st.system ok.messages ok.carries.holds a.bound guards in
      let thread : Thread = going ((perform task st.system).0 ++ tasks) in
      record {
        bound = bound_still g num _ _ done.fifo a.bound;
        guarded = guarded_still thread done.guarded;
        promise = λ some_in on.
            let before = sym done.fifo.empty ∙ some_in in
            let was_on = sym done.mask ∙ on in
            elim (a.promise before was_on) [
              | inl ready ↦ elim (done.onward before was_on (inl ready)) [
                | inl still ↦ inl still
                | inr p ↦ inr (own thread p)
              ]
              | inr pending ↦ elim (Bool-cases (pending.0 == t)) [
                | inl here ↦
                    let at : pending.0 ≡ t = ground (arith, here) in
                    let now : Pending g num (task ∷ tasks) =
                      subst (PendingThread g num) e
                        (subst (λ r. PendingThread g num (st.threads r)) at pending.1) in
                    elim (done.onward before was_on (inr now)) [
                      | inl ready ↦ inl ready
                      | inr p ↦ inr (own thread p)
                    ]
                | inr there ↦
                    let apart : pending.0 ≢ t = λ e'. ground (arith, there, e') in
                    inr (pending.0, rw (put-other t thread st.threads pending.0 apart) pending.1)
              ]
            ];
      }

-- ===== src/Fifo/Started.antt =====
-- A call keeps a reader from missing messages, up to the first release of a lock: src/include/xdp2/fifo.h.
use xdp.Base.{
  ℕ, Bool, true, false, List, [], ◌∷◌, ◌≡◌, ◌⊎◌, inl, inr, refl, sym, ap, subst, ◌∙◌, Option, none,
  some, some-injective,
}
use xdp.Fifo.{is_empty}
use xdp.Fifo.Sections.{Enqueued, Dequeued}
use xdp.Fifo.Groups.{
  System, Task, after_enqueue, after_dequeue, with_group, enabled_read, enabled_write,
}
use xdp.Fifo.Setup.{
  enable_read_poll, enable_write_poll, disable_read_poll, disable_write_poll, with_mask,
}
use xdp.Fifo.Threads.{
  World, Move, going, enqueue, dequeue, enable_read, enable_write, disable_read, disable_write,
  proceed, wake, begin_call, set_thread, enqueue_left, dequeue_left, start_enqueue, start_dequeue,
}
use xdp.Fifo.Awake.{mask_bit, Pending, Guarded, PendingThread, mask-here, mask-other, mask-ready}
use xdp.Fifo.Entered.{
  EnqueuedAwake, DequeuedAwake, counted, enqueue_locked-Awake, dequeue_locked-Awake,
}
use xdp.Fifo.Continued.{AwakeWorld, elsewhere, guarded_still, own, entered}

module _ (g num : ℕ) where
  after_enqueue-Guarded : (was_empty full : Bool) → Guarded g num (after_enqueue was_empty full)
  unfolding after_enqueue
  after_enqueue-Guarded true true = (tt, (tt, (tt, (tt, tt))))
  after_enqueue-Guarded true false = (tt, (tt, tt))
  after_enqueue-Guarded false true = (tt, (tt, (tt, tt)))
  after_enqueue-Guarded false false = (tt, tt)

  after_enqueue-Pending : (full : Bool) → Pending g num (after_enqueue true full)
  unfolding after_enqueue
  after_enqueue-Pending true = inr (inr (inl tt))
  after_enqueue-Pending false = inl tt

  after_dequeue-Guarded :
      (non_readable unblock : Bool) → Guarded g num (after_dequeue non_readable unblock)
  unfolding after_dequeue
  after_dequeue-Guarded true true = (tt, (inl tt, (tt, (tt, (tt, tt)))))
  after_dequeue-Guarded true false = (inl tt, (tt, (tt, tt)))
  after_dequeue-Guarded false true = (tt, (tt, (tt, tt)))
  after_dequeue-Guarded false false = (tt, tt)

module _ (g num t : ℕ) (st st' : World) (a : AwakeWorld g num st)
    (nothing : PendingThread g num (st.threads t) → ⊥) where
  pub enqueue_left-Awake :
      (message : List ℕ) (e : Enqueued)
      → EnqueuedAwake g num (is_empty st.system.fifo) e
      → enqueue_left t message e st ≡ some st'
      → AwakeWorld g num st'
  unfolding enqueue_left
  enqueue_left-Awake message Enqueued.asserted left h = absurd (cc)
  enqueue_left-Awake message (Enqueued.refused f) left h =
      subst (AwakeWorld g num) (some-injective h)
        (entered g num t st a _ f nothing left.0 (tt, tt) (λ now. inl (sym left.1 ∙ now)))
  enqueue_left-Awake message (Enqueued.waiting f) left h =
      subst (AwakeWorld g num) (some-injective h)
        (entered g num t st a _ f nothing left.0 tt (λ now. inl (sym left.1 ∙ now)))
  enqueue_left-Awake message (Enqueued.queued true full f) left h =
      subst (AwakeWorld g num) (some-injective h) (
        entered g num t st a _ f nothing left.0 (after_enqueue-Guarded g num true full)
          (λ now. inr (after_enqueue-Pending g num full)))
  enqueue_left-Awake message (Enqueued.queued false full f) left h =
      subst (AwakeWorld g num) (some-injective h) (
        entered g num t st a _ f nothing left.0 (after_enqueue-Guarded g num false full)
          (λ now. inl (left.1 refl)))

  pub dequeue_left-Awake :
      (words : ℕ) (d : Dequeued)
      → DequeuedAwake g num (is_empty st.system.fifo) d
      → dequeue_left t words d st ≡ some st'
      → AwakeWorld g num st'
  unfolding dequeue_left
  dequeue_left-Awake words Dequeued.asserted left h = absurd (cc)
  dequeue_left-Awake words (Dequeued.refused f) left h =
      subst (AwakeWorld g num) (some-injective h) (
        entered g num t st a _ f nothing left.0 (inl tt, (tt, (tt, tt)))
          (λ now. inl (sym left.1 ∙ now)))
  dequeue_left-Awake words (Dequeued.waiting f) left h =
      subst (AwakeWorld g num) (some-injective h)
        (entered g num t st a _ f nothing left.0 tt (λ now. inl (sym left.1 ∙ now)))
  dequeue_left-Awake words (Dequeued.taken message non_readable unblock f) left h =
      subst (AwakeWorld g num) (some-injective h) (
        entered g num t st a _ f nothing left.0 (after_dequeue-Guarded g num non_readable unblock)
          (λ now. inl left.1))

  -- A mask changed
  masked :
      (h n : ℕ) (b : Bool) (tasks : List Task)
      → Guarded g num tasks
      → (mask_bit g num (with_group h (with_mask n b) st.system) ≡ true
          → (mask_bit g num st.system ≡ true) ⊎ Pending g num tasks)
      → AwakeWorld g num (set_thread t (going tasks) (with_group h (with_mask n b) st.system) st)
  masked h n b tasks guarded before = record {
    bound = a.bound;
    guarded = guarded_still g num t st a (going tasks) guarded;
    promise = λ some_in on. elim (before on) [
      | inr pending ↦ inr (own g num t st a (going tasks) pending)
      | inl was_on ↦ elim (a.promise some_in was_on) [
        | inl ready ↦ inl (mask-ready g num st.system h n b ∙ ready)
        | inr pending ↦ inr (elsewhere g num t st a (going tasks) (λ p. absurd (nothing p)) pending)
      ]
    ];
  }

  unchanged : AwakeWorld g num (set_thread t (going []) st.system st)
  unchanged = record {
    bound = a.bound;
    guarded = guarded_still g num t st a (going []) tt;
    promise = λ some_in on. elim (a.promise some_in on) [
      | inl ready ↦ inl ready
      | inr pending ↦ inr (elsewhere g num t st a (going []) (λ p. absurd (nothing p)) pending)
    ];
  }

  abbrev enabling : Option ℕ → ℕ → Task → List Task × System
  enabling o n task = elim o [
    | none ↦ ([], st.system)
    | some h ↦ (task ∷ [], with_group h (with_mask n true) st.system)
  ]

  abbrev disabling : Option ℕ → ℕ → System
  disabling o n = elim o [ none ↦ st.system | some h ↦ with_group h (with_mask n false) st.system ]

  abbrev After : List Task × System → Type 0
  After done = AwakeWorld g num (set_thread t (going done.0) done.1 st)

  enabling_read :
      After (enabling st.system.fifo.read_poll st.system.fifo.read_poll_num enabled_read)
  enabling_read =
      subst (λ o. After (enabling o st.system.fifo.read_poll_num enabled_read)) (sym a.bound.group)
        (masked g st.system.fifo.read_poll_num true (enabled_read ∷ []) (tt, tt)
          (λ on. inr (inl tt)))

  enabling_write : (o : Option ℕ) → After (enabling o st.system.fifo.write_poll_num enabled_write)
  enabling_write none = unchanged
  enabling_write (some h) =
      masked h st.system.fifo.write_poll_num true (enabled_write ∷ []) (tt, tt)
        (λ on. inl (
          sym (mask-other g num st.system h st.system.fifo.write_poll_num true a.bound.apart) ∙ on))

  disabling_read : After ([], disabling st.system.fifo.read_poll st.system.fifo.read_poll_num)
  disabling_read =
      subst (λ o. After ([], disabling o st.system.fifo.read_poll_num)) (sym a.bound.group)
        (masked g st.system.fifo.read_poll_num false [] tt (λ on.
          let off : mask_bit g num
                (with_group g (with_mask st.system.fifo.read_poll_num false) st.system)
              ≡ false =
            ap (λ n. mask_bit g num (with_group g (with_mask n false) st.system)) a.bound.number
            ∙ mask-here g num st.system false in
          let both = sym off ∙ on in absurd (cc)))

  disabling_write : (o : Option ℕ) → After ([], disabling o st.system.fifo.write_poll_num)
  disabling_write none = unchanged
  disabling_write (some h) = masked h st.system.fifo.write_poll_num false [] tt (λ on.
      inl
        (sym (mask-other g num st.system h st.system.fifo.write_poll_num false a.bound.apart) ∙ on))

  pub begin_call-Awake : (m : Move) → begin_call t m st ≡ some st' → AwakeWorld g num st'
  unfolding begin_call start_enqueue start_dequeue enable_read_poll disable_read_poll
      enable_write_poll disable_write_poll
  begin_call-Awake (enqueue message wait) h =
      let now =
        counted g num st.system.fifo (is_empty st.system.fifo) a.bound refl _
          st.system.fifo.num_enqueue_waiters in
      enqueue_left-Awake message _
        (enqueue_locked-Awake g num _ (is_empty st.system.fifo) now.0 now.1 message wait) h
  begin_call-Awake (dequeue words wait) h =
      dequeue_left-Awake words _
        (dequeue_locked-Awake g num st.system.fifo (is_empty st.system.fifo) a.bound refl words
          wait)
        h
  begin_call-Awake enable_read h = subst (AwakeWorld g num) (some-injective h) enabling_read
  begin_call-Awake enable_write h =
      subst (AwakeWorld g num) (some-injective h) (enabling_write st.system.fifo.write_poll)
  begin_call-Awake disable_read h = subst (AwakeWorld g num) (some-injective h) disabling_read
  begin_call-Awake disable_write h =
      subst (AwakeWorld g num) (some-injective h) (disabling_write st.system.fifo.write_poll)
  begin_call-Awake proceed h = absurd (cc)
  begin_call-Awake wake h = absurd (cc)

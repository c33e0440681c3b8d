-- ===== src/Fifo/Performed.antt =====
-- A task that a thread performs keeps a reader from missing messages: src/include/xdp2/fifo.h.
use xdp.Base.{
  ℕ, Bool, true, false, not, List, [], ◌∷◌, ◌++◌, ◌≡◌, ◌≢◌, ◌⊎◌, inl, inr, refl, sym, ap, subst,
  ltb, ◌∙◌, Option, none, some, ◌==◌, if◌then◌else◌,
}
use xdp.Fifo.{FifoStats, avail_in_queue, Fifo, is_empty, num_in_queue}
use xdp.Fifo.Groups.{
  System, Task, for_group, perform, signal_if, ready_at, clear_readable, make_readable, readable_at,
  mark_non_readable, non_readable_at, recheck_readable, make_writable, writable_at,
  mark_non_writable, non_writable_at, recheck_writable, enabled_read, enabled_write,
  signal_producer, count_enqueued, count_enqueue_failed, count_dequeued, count_dequeue_failed,
}
use xdp.Fifo.Counted.{signal_if-fifo, ready_at-fifo}
use xdp.Fifo.Queue.{Holds, num_in_queue-length, is_empty-length}
use xdp.Fifo.Awake.{
  ready_bit, mask_bit, Promises, Pending, Guards, Guarded, BoundTo, ready-mask, ready-other,
  ready_at-mask, ready_at-stays, ready_at-here,
}

-- The fifo of `s'` has the state of that of `s`, and its bindings.
pub record SameFifo (f f' : Fifo) : Type 0 where
  pub empty : is_empty f' ≡ is_empty f
  pub read_poll : f'.read_poll ≡ f.read_poll
  pub read_poll_num : f'.read_poll_num ≡ f.read_poll_num
  pub write_poll_num : f'.write_poll_num ≡ f.write_poll_num

pub same : (f : Fifo) → SameFifo f f
same f = record { empty = refl; read_poll = refl; read_poll_num = refl; write_poll_num = refl }

pub same_counted :
    (f : Fifo) (stats : Option FifoStats) (waiters enqueued dequeued : ℕ)
    → SameFifo f (record f {
      stats = stats;
      num_enqueue_waiters = waiters;
      num_enqueued = enqueued;
      num_dequeued = dequeued;
    })
unfolding is_empty
same_counted f stats waiters enqueued dequeued = record {
  empty = refl;
  read_poll = refl;
  read_poll_num = refl;
  write_poll_num = refl;
}

pub signal_if-groups : (cond : Option ℕ) (s : System) → (signal_if cond s).groups ≡ s.groups
unfolding signal_if
signal_if-groups none s = refl
signal_if-groups (some c) s = refl

same_signal : (cond : Option ℕ) (s : System) → SameFifo s.fifo (signal_if cond s).fifo
same_signal cond s = subst (SameFifo s.fifo) (sym (signal_if-fifo cond s)) (same s.fifo)

module _ (g num : ℕ) where
  for_read :
      (s : System)
      → BoundTo g num s.fifo
      → (make : ℕ → ℕ → Task)
      → for_group s.fifo.read_poll (λ h. make h s.fifo.read_poll_num) ≡ make g num ∷ []
  for_read s b make = rw (b.group, b.number) refl

  -- What is ready or promised before is so after.
  abbrev Onward : Task → List Task → System → List Task → System → Type 0
  Onward task tasks s tasks' s' =
      is_empty s.fifo ≡ false
      → mask_bit g num s ≡ true
      → (ready_bit g num s ≡ true) ⊎ Pending g num (task ∷ tasks)
      → (ready_bit g num s' ≡ true) ⊎ Pending g num tasks'

  -- What performing a task comes to
  pub record Performed (task : Task) (tasks : List Task) (s : System) (left : List Task)
      (s' : System) : Type 0 where
    pub fifo : SameFifo s.fifo s'.fifo
    pub mask : mask_bit g num s' ≡ mask_bit g num s
    pub guarded : Guarded g num (left ++ tasks)
    pub onward : Onward task tasks s (left ++ tasks) s'

  Pending-append : (left tasks : List Task) → Pending g num tasks → Pending g num (left ++ tasks)
  Pending-append [] tasks p = p
  Pending-append (task ∷ left) tasks p = inr (Pending-append left tasks p)

  -- A task that changes no poll group keeps its promise by those that it leaves.
  steady :
      (task : Task) (tasks : List Task) (s : System) (left : List Task) (s' : System)
      → SameFifo s.fifo s'.fifo
      → s'.groups ≡ s.groups
      → Guarded g num (left ++ tasks)
      → (is_empty s.fifo ≡ false → Promises g num task → Pending g num (left ++ tasks))
      → Performed task tasks s left s'
  steady task tasks s left s' fifo groups guarded kept = record {
    fifo = fifo;
    mask = ap (λ gs. (gs g).fifos_mask num) groups;
    guarded = guarded;
    onward = λ some_in on now. elim now [
      | inl ready ↦ inl (ap (λ gs. (gs g).fifos_ready num) groups ∙ ready)
      | inr pending ↦ elim pending [
        | inl own ↦ inr (kept some_in own)
        | inr later ↦ inr (Pending-append left tasks later)
      ]
    ];
  }

  -- What a task leaves under a condition
  steady_if :
      (task next : Task) (tasks : List Task) (s : System) (b : Bool)
      → Guards g num next tasks
      → Guarded g num tasks
      → (is_empty s.fifo ≡ false → Promises g num task → (b ≡ true) × Promises g num next)
      → Performed task tasks s (if b then next ∷ [] else []) s
  steady_if task next tasks s true guards k own =
      steady task tasks s (next ∷ []) s (same s.fifo) refl (guards, k)
        (λ some_in p. inl (own some_in p).1)
  steady_if task next tasks s false guards k own =
      steady task tasks s [] s (same s.fifo) refl k
        (λ some_in p. let on = (own some_in p).0 in absurd (cc))

  -- What a task leaves for the group that the fifo is bound to for writing
  steady_for :
      (task : Task) (tasks : List Task) (s s' : System) (bound : Option ℕ) (make : ℕ → Task)
      → SameFifo s.fifo s'.fifo
      → s'.groups ≡ s.groups
      → ((h : ℕ) → Guards g num (make h) tasks)
      → Guarded g num tasks
      → (Promises g num task → ⊥)
      → Performed task tasks s (for_group bound make) s'
  steady_for task tasks s s' none make fifo groups guards k none_own =
      steady task tasks s [] s' fifo groups k (λ some_in own. absurd (none_own own))
  steady_for task tasks s s' (some h) make fifo groups guards k none_own =
      steady task tasks s (make h ∷ []) s' fifo groups (guards h, k)
        (λ some_in own. absurd (none_own own))

  -- The bit of a fifo is set.
  setting :
      (task : Task) (h n : ℕ) (tasks : List Task) (s : System)
      → (Promises g num task → (h ≡ g) × (n ≡ num))
      → Guarded g num tasks
      → Performed task tasks s [] (ready_at h n s)
  setting task h n tasks s own k = record {
    fifo = subst (SameFifo s.fifo) (sym (ready_at-fifo h n s)) (same s.fifo);
    mask = ready_at-mask g num s h n;
    guarded = k;
    onward = λ some_in on now. elim now [
      | inl ready ↦ inl (ready_at-stays g num s h n ready)
      | inr pending ↦ elim pending [
        | inl here ↦ inl (rw ((own here).0, (own here).1) (ready_at-here g num s on))
        | inr later ↦ inr later
      ]
    ];
  }

  -- The bit of a fifo is cleared, of another one, or with a task that looks again.
  clearing :
      (task : Task) (h n : ℕ) (tasks : List Task) (s : System)
      → (Promises g num task → ⊥)
      → (n ≢ num) ⊎ Pending g num tasks
      → Guarded g num tasks
      → Performed task tasks s [] (clear_readable h n s)
  unfolding clear_readable
  clearing task h n tasks s none_own safe k = record {
    fifo = same s.fifo;
    mask = ready-mask g num s h n false;
    guarded = k;
    onward = λ some_in on now. elim safe [
      | inr later ↦ inr later
      | inl other ↦ elim now [
        | inl ready ↦ inl (ready-other g num s h n false other ∙ ready)
        | inr pending ↦ elim pending [ inl here ↦ absurd (none_own here) | inr later ↦ inr later ]
      ]
    ];
  }

  pub perform-Performed :
      (task : Task) (tasks : List Task) (s : System) (messages : List (List ℕ))
      → Holds s.fifo messages
      → BoundTo g num s.fifo
      → Guarded g num (task ∷ tasks)
      → Performed task tasks s (perform task s).0 (perform task s).1
  unfolding perform
  perform-Performed make_readable tasks s ms h b k =
      subst (λ left. Performed make_readable tasks s left (signal_if s.fifo.consumer_cond s))
        (sym (for_read s b readable_at))
        (steady make_readable tasks s (readable_at g num ∷ []) _
          (same_signal s.fifo.consumer_cond s) (signal_if-groups s.fifo.consumer_cond s) (tt, k.1)
          (λ some_in own. inl (refl, refl)))
  perform-Performed (readable_at h' n) tasks s ms h b k =
      setting (readable_at h' n) h' n tasks s (λ own. own) k.1
  perform-Performed mark_non_readable tasks s ms h b k =
      subst (λ left. Performed mark_non_readable tasks s left s)
        (sym (for_read s b non_readable_at))
        (steady mark_non_readable tasks s (non_readable_at g num ∷ []) s (same s.fifo) refl k
          (λ some_in own. absurd own))
  perform-Performed (non_readable_at h' n) tasks s ms h b k =
      clearing (non_readable_at h' n) h' n tasks s (λ own. own) (inr k.0) k.1
  perform-Performed recheck_readable tasks s ms h b k =
      steady_if recheck_readable make_readable tasks s (not (is_empty s.fifo)) tt k.1
        (λ some_in own. (ap not some_in, tt))
  perform-Performed make_writable tasks s ms h b k =
      steady_for make_writable tasks s (signal_if s.fifo.producer_cond s) s.fifo.write_poll
        (λ h'. writable_at h' s.fifo.write_poll_num) (same_signal s.fifo.producer_cond s)
        (signal_if-groups s.fifo.producer_cond s) (λ h'. tt) k.1 (λ own. own)
  perform-Performed (writable_at h' n) tasks s ms h b k =
      setting (writable_at h' n) h' n tasks s (λ own. absurd own) k.1
  perform-Performed mark_non_writable tasks s ms h b k =
      steady_for mark_non_writable tasks s s s.fifo.write_poll
        (λ h'. non_writable_at h' s.fifo.write_poll_num) (same s.fifo) refl (λ h'. b.apart) k.1
        (λ own. own)
  perform-Performed (non_writable_at h' n) tasks s ms h b k =
      clearing (non_writable_at h' n) h' n tasks s (λ own. own) (inl k.0) k.1
  perform-Performed recheck_writable tasks s ms h b k =
      steady_if recheck_writable make_writable tasks s
        (ltb (num_in_queue s.fifo) s.fifo.low_water_mark) tt k.1 (λ some_in own. absurd own)
  perform-Performed enabled_read tasks s ms h b k =
      steady_if enabled_read make_readable tasks s (not (num_in_queue s.fifo == 0)) tt k.1
        (λ some_in own.
          let counted =
            ap (λ n. n == 0) (num_in_queue-length s.fifo ms h)
            ∙ sym (is_empty-length s.fifo ms h) in
          (ap not (counted ∙ some_in), tt))
  perform-Performed enabled_write tasks s ms h b k =
      steady_if enabled_write make_writable tasks s (not (avail_in_queue s.fifo == 0)) tt k.1
        (λ some_in own. absurd own)
  perform-Performed signal_producer tasks s ms h b k =
      steady signal_producer tasks s [] _ (same_signal s.fifo.producer_cond s)
        (signal_if-groups s.fifo.producer_cond s) k.1 (λ some_in own. absurd own)
  perform-Performed count_enqueued tasks s ms h b k =
      steady count_enqueued tasks s [] (perform count_enqueued s).1
        (same_counted s.fifo (perform count_enqueued s).1.fifo.stats s.fifo.num_enqueue_waiters
          (perform count_enqueued s).1.fifo.num_enqueued
          (perform count_enqueued s).1.fifo.num_dequeued)
        refl k.1 (λ some_in own. absurd own)
  perform-Performed count_enqueue_failed tasks s ms h b k =
      steady count_enqueue_failed tasks s [] (perform count_enqueue_failed s).1
        (same_counted s.fifo (perform count_enqueue_failed s).1.fifo.stats
          s.fifo.num_enqueue_waiters (perform count_enqueue_failed s).1.fifo.num_enqueued
          (perform count_enqueue_failed s).1.fifo.num_dequeued)
        refl k.1 (λ some_in own. absurd own)
  perform-Performed count_dequeued tasks s ms h b k =
      steady count_dequeued tasks s [] (perform count_dequeued s).1
        (same_counted s.fifo (perform count_dequeued s).1.fifo.stats s.fifo.num_enqueue_waiters
          (perform count_dequeued s).1.fifo.num_enqueued
          (perform count_dequeued s).1.fifo.num_dequeued)
        refl k.1 (λ some_in own. absurd own)
  perform-Performed count_dequeue_failed tasks s ms h b k =
      steady count_dequeue_failed tasks s [] (perform count_dequeue_failed s).1
        (same_counted s.fifo (perform count_dequeue_failed s).1.fifo.stats
          s.fifo.num_enqueue_waiters (perform count_dequeue_failed s).1.fifo.num_enqueued
          (perform count_dequeue_failed s).1.fifo.num_dequeued)
        refl k.1 (λ some_in own. absurd own)

-- ===== src/Fifo/Writers.antt =====
-- A wake-up of a writer that is lost: ___xdp2_fifo_sw_enqueue of src/include/xdp2/fifo.h.
use xdp.Base.{
  ℕ, ◌+◌, ◌%◌, Bool, true, false, not, ◌&&◌, List, [], ◌∷◌, ◌++◌, ◌≡◌, ◌≢◌, inl, inr, refl, sym, ap,
  subst, ◌∙◌, Option, none, some, put-cases, Bool-cases, Option-cases, ◌==◌, if◌then◌else◌,
  some-injective, ltb, All,
}
use xdp.Fifo.{uint_mod, num_in_queue, Fifo, is_empty, distance}
use xdp.Fifo.Sections.{Dequeued, dequeue_locked, dequeue_woken, take_message}
use xdp.Fifo.Groups.{
  System, Task, perform, for_group, signal_if, ready_at, clear_readable, with_group, with_ready,
  after_dequeue, make_readable, readable_at, mark_non_readable, non_readable_at, recheck_readable,
  make_writable, writable_at, mark_non_writable, non_writable_at, recheck_writable, enabled_read,
  enabled_write, signal_producer, count_enqueued, count_enqueue_failed, count_dequeued,
  count_dequeue_failed,
}
use xdp.Fifo.Setup.{enable_read_poll, disable_read_poll, with_mask}
use xdp.Fifo.Threads.{
  World, Thread, Move, going, enqueue_waits, dequeue_waits, enqueue, dequeue, enable_read,
  enable_write, disable_read, disable_write, proceed, wake, Reachable, begun, stepped, move,
  begin_call, continue, set_thread, dequeue_left, start_dequeue,
}
use xdp.Fifo.Awake.{ready_bit, with_group-cases, ready-other, mask-ready}

-- A move of one who reads, or the next task of a call
abbrev pub ReaderMove : Move → Type 0
ReaderMove (enqueue message wait) = ⊥
ReaderMove enable_write = ⊥
ReaderMove disable_write = ⊥
ReaderMove m = Unit

-- The task does not make the fifo writable, under the number `num`.
abbrev Calm : ℕ → Task → Type 0
Calm num make_writable = ⊥
Calm num (writable_at g n) = ⊥
Calm num recheck_writable = ⊥
Calm num enabled_write = ⊥
Calm num (readable_at g n) = n ≢ num
Calm num task = Unit

abbrev pub CalmThread : ℕ → Thread → Type 0
CalmThread num (going tasks) = All (Calm num) tasks
CalmThread num (enqueue_waits message) = ⊥
CalmThread num (dequeue_waits words) = Unit

-- The fifo accepts messages, its number for reading is another, it is not ready for writing, and no
-- thread is about to make it so.
pub record Asleep (g num : ℕ) (st : World) : Type 0 where
  pub open_fifo : st.system.fifo.queue_full ≡ false
  pub apart : st.system.fifo.read_poll_num ≢ num
  pub unready : ready_bit g num st.system ≡ false
  pub calm : (t : ℕ) → CalmThread num (st.threads t)

All-append {ℓ} :
    {A : Type ℓ} (P : A → Type 0) (xs ys : List A) → All P xs → All P ys → All P (xs ++ ys)
All-append P [] ys h k = k
All-append P (x ∷ xs) ys h k = (h.0, All-append P xs ys h.1 k)

-- The system after a task that leaves its state, its bindings and the bit as they are
unfoldable Steady : ℕ → ℕ → System → System → Type 0
Steady g num s s' =
    (s'.fifo.queue_full ≡ s.fifo.queue_full)
    × (s'.fifo.read_poll_num ≡ s.fifo.read_poll_num)
    × (ready_bit g num s ≡ false → ready_bit g num s' ≡ false)

module _ (g num : ℕ) where
  Steady-ready_at : (h n : ℕ) (s : System) → n ≢ num → Steady g num s (ready_at h n s)
  unfolding Steady ready_at
  Steady-ready_at h n s other = elim (Bool-cases ((s.groups h).fifos_mask n)) [
    | inl on ↦ rw (ready_at, on) (refl, refl, λ off. ready-other g num s h n true other ∙ off)
    | inr off ↦ rw (ready_at, off) (refl, refl, λ bit. bit)
  ]

  Steady-signal_if : (cond : Option ℕ) (s : System) → Steady g num s (signal_if cond s)
  unfolding Steady signal_if
  Steady-signal_if none s = (refl, refl, λ bit. bit)
  Steady-signal_if (some c) s = (refl, refl, λ bit. bit)

  Steady-clear_readable : (h n : ℕ) (s : System) → Steady g num s (clear_readable h n s)
  unfolding Steady clear_readable
  Steady-clear_readable h n s = (
    refl,
    refl,
    λ off.
        with_group-cases (λ group. group.fifos_ready num ≡ false) g h (with_ready n false) s
          (λ e.
            put-cases (λ x bit. x ≡ num → bit ≡ false) n false (s.groups g).fifos_ready (λ e'. refl)
              (λ x d e'. rw e' off) num refl)
          off,
  )

  for_read-Calm :
      (bound : Option ℕ) (make : ℕ → Task)
      → ((h : ℕ) → Calm num (make h))
      → All (Calm num) (for_group bound make)
  for_read-Calm none make h = tt
  for_read-Calm (some g') make h = (h g', tt)

  if-Calm : (b : Bool) (task : Task) → Calm num task → All (Calm num) (if b then task ∷ [] else [])
  if-Calm true task h = (h, tt)
  if-Calm false task h = tt

  perform-Calm :
      (task : Task) (s : System)
      → Calm num task
      → s.fifo.read_poll_num ≢ num
      → All (Calm num) (perform task s).0 × Steady g num s (perform task s).1
  unfolding perform Steady
  perform-Calm make_readable s c other =
      (for_read-Calm s.fifo.read_poll _ (λ h. other), Steady-signal_if s.fifo.consumer_cond s)
  perform-Calm (readable_at h n) s c other = (tt, Steady-ready_at h n s c)
  perform-Calm mark_non_readable s c other =
      (for_read-Calm s.fifo.read_poll _ (λ h. tt), (refl, refl, λ bit. bit))
  perform-Calm (non_readable_at h n) s c other = (tt, Steady-clear_readable h n s)
  perform-Calm recheck_readable s c other =
      (if-Calm (not (is_empty s.fifo)) make_readable tt, (refl, refl, λ bit. bit))
  perform-Calm make_writable s c other = absurd c
  perform-Calm (writable_at h n) s c other = absurd c
  perform-Calm mark_non_writable s c other =
      (for_read-Calm s.fifo.write_poll _ (λ h. tt), (refl, refl, λ bit. bit))
  perform-Calm (non_writable_at h n) s c other = (tt, Steady-clear_readable h n s)
  perform-Calm recheck_writable s c other = absurd c
  perform-Calm enabled_read s c other =
      (if-Calm (not (num_in_queue s.fifo == 0)) make_readable tt, (refl, refl, λ bit. bit))
  perform-Calm enabled_write s c other = absurd c
  perform-Calm signal_producer s c other = (tt, Steady-signal_if s.fifo.producer_cond s)
  perform-Calm count_enqueued s c other = (tt, (refl, refl, λ bit. bit))
  perform-Calm count_enqueue_failed s c other = (tt, (refl, refl, λ bit. bit))
  perform-Calm count_dequeued s c other = (tt, (refl, refl, λ bit. bit))
  perform-Calm count_dequeue_failed s c other = (tt, (refl, refl, λ bit. bit))

  -- The thread `t` changed, and with it the system
  still :
      (t : ℕ) (thread : Thread) (s : System) (st : World)
      → Asleep g num st
      → CalmThread num thread
      → Steady g num st.system s
      → Asleep g num (set_thread t thread s st)
  unfolding Steady
  still t thread s st a own kept = record {
    open_fifo = kept.0 ∙ a.open_fifo;
    apart = rw kept.1 a.apart;
    unready = kept.2 a.unready;
    calm = put-cases (λ r th. CalmThread num th) t thread st.threads own (λ r d. a.calm r);
  }

-- What a dequeue leaves of a fifo that accepts messages
abbrev DequeuedCalm : ℕ → Dequeued → Type 0
DequeuedCalm number Dequeued.asserted = Unit
DequeuedCalm number (Dequeued.refused f) = (f.queue_full ≡ false) × (f.read_poll_num ≡ number)
DequeuedCalm number (Dequeued.waiting f) = (f.queue_full ≡ false) × (f.read_poll_num ≡ number)
DequeuedCalm number (Dequeued.taken message non_readable unblock f) =
    (f.queue_full ≡ false) × (f.read_poll_num ≡ number) × (unblock ≡ false)

module _ (words : ℕ) (f : Fifo) (h : f.queue_full ≡ false) where
  take_message-Calm : DequeuedCalm f.read_poll_num (take_message words f)
  unfolding take_message
  take_message-Calm =
      let next = (f.consumer + 1) % uint_mod % f.num_ents in
      let low = ltb (distance f.producer next f.num_ents) f.low_water_mark in
      let cleared : (if f.queue_full && low then false else f.queue_full) ≡ false =
        ap (λ b. if b && low then false else b) h in
      let blocked : (f.queue_full && low) ≡ false = ap (λ b. b && low) h in (cleared, refl, blocked)

module _ (words : ℕ) (f : Fifo) (h : f.queue_full ≡ false) where
  dequeue_locked-Calm : (wait : Bool) → DequeuedCalm f.read_poll_num (dequeue_locked words wait f)
  unfolding dequeue_locked
  dequeue_locked-Calm wait = elim (Bool-cases (ltb f.ent_size words)) [
    | inl long ↦ rw (dequeue_locked, long) tt
    | inr fit ↦ elim (Bool-cases (is_empty f)) [
      | inl none_left ↦ elim (Bool-cases wait) [
        | inl waits ↦ elim (Option-cases f.consumer_cond) [
          | inl unset ↦ rw (dequeue_locked, fit, none_left, waits, unset) tt
          | inr cond ↦ rw (dequeue_locked, fit, none_left, waits, cond.1) (h, refl)
        ]
        | inr stays ↦ rw (dequeue_locked, fit, none_left, stays) (h, refl)
      ]
      | inr more ↦ rw (dequeue_locked, fit, more) (take_message-Calm words f h)
    ]
  ]

  dequeue_woken-Calm : DequeuedCalm f.read_poll_num (dequeue_woken words f)
  unfolding dequeue_woken
  dequeue_woken-Calm = elim (Bool-cases (is_empty f)) [
    | inl none_left ↦ rw (dequeue_woken, none_left) (h, refl)
    | inr more ↦ rw (dequeue_woken, more) (take_message-Calm words _ h)
  ]

after_dequeue-Calm :
    (num : ℕ) (non_readable : Bool) → All (Calm num) (after_dequeue non_readable false)
unfolding after_dequeue
after_dequeue-Calm num true = (tt, (tt, (tt, tt)))
after_dequeue-Calm num false = (tt, tt)

module _ (g num n : ℕ) (s : System) where
  Steady-mask : (h : ℕ) (b : Bool) → Steady g num s (with_group h (with_mask n b) s)
  unfolding Steady
  Steady-mask h b = (refl, refl, λ off. mask-ready g num s h n b ∙ off)

module _ (g num t : ℕ) (st st' : World) (a : Asleep g num st) where
  abbrev number : ℕ
  number = st.system.fifo.read_poll_num

  -- What enabling and disabling come to, by the group that the fifo is bound to
  enabling-Asleep :
      (o : Option ℕ)
      → let done : List Task × System = elim o [
        | none ↦ ([], st.system)
        | some h ↦ (enabled_read ∷ [], with_group h (with_mask number true) st.system)
      ] in
        Asleep g num (set_thread t (going done.0) done.1 st)
  unfolding Steady
  enabling-Asleep none = still g num t (going []) st.system st a tt (refl, refl, λ bit. bit)
  enabling-Asleep (some h) =
      still g num t (going (enabled_read ∷ [])) _ st a (tt, tt)
        (Steady-mask g num number st.system h true)

  disabling-Asleep :
      (o : Option ℕ)
      → Asleep g num (
          set_thread t
            (going [])
            (elim o [ none ↦ st.system | some h ↦ with_group h (with_mask number false) st.system ])
            st)
  unfolding Steady
  disabling-Asleep none = still g num t (going []) st.system st a tt (refl, refl, λ bit. bit)
  disabling-Asleep (some h) =
      still g num t (going []) _ st a tt (Steady-mask g num number st.system h false)

  dequeue_left-Asleep :
      (words : ℕ) (d : Dequeued)
      → DequeuedCalm st.system.fifo.read_poll_num d
      → dequeue_left t words d st ≡ some st'
      → Asleep g num st'
  unfolding dequeue_left Steady
  dequeue_left-Asleep words Dequeued.asserted left h = absurd (cc)
  dequeue_left-Asleep words (Dequeued.refused f) left h = subst (Asleep g num) (some-injective h) (
      still g num t _ (record st.system { fifo = f }) st a (tt, (tt, (tt, tt)))
        (left.0 ∙ sym a.open_fifo, left.1, λ bit. bit))
  dequeue_left-Asleep words (Dequeued.waiting f) left h = subst (Asleep g num) (some-injective h) (
      still g num t _ (record st.system { fifo = f }) st a tt
        (left.0 ∙ sym a.open_fifo, left.1, λ bit. bit))
  dequeue_left-Asleep words (Dequeued.taken message non_readable unblock f) left h =
      let calm : All (Calm num) (after_dequeue non_readable unblock) =
        subst (λ b. All (Calm num) (after_dequeue non_readable b)) (sym left.2)
          (after_dequeue-Calm num non_readable) in
      let kept =
        still g num t (going (after_dequeue non_readable unblock)) (record st.system { fifo = f })
          st a calm (left.0 ∙ sym a.open_fifo, left.1, λ bit. bit) in
      subst (Asleep g num) (some-injective h) (record {
        open_fifo = kept.open_fifo;
        apart = kept.apart;
        unready = kept.unready;
        calm = kept.calm;
      })

  begin_call-Asleep : (m : Move) → ReaderMove m → begin_call t m st ≡ some st' → Asleep g num st'
  unfolding begin_call start_dequeue Steady enable_read_poll disable_read_poll
  begin_call-Asleep (enqueue message wait) e h = absurd e
  begin_call-Asleep (dequeue words wait) e h =
      dequeue_left-Asleep words _ (dequeue_locked-Calm words st.system.fifo a.open_fifo wait) h
  begin_call-Asleep enable_read e h =
      subst (Asleep g num) (some-injective h) (enabling-Asleep st.system.fifo.read_poll)
  begin_call-Asleep enable_write e h = absurd e
  begin_call-Asleep disable_read e h =
      subst (Asleep g num) (some-injective h) (disabling-Asleep st.system.fifo.read_poll)
  begin_call-Asleep disable_write e h = absurd e
  begin_call-Asleep proceed e h = absurd (cc)
  begin_call-Asleep wake e h = absurd (cc)

move-Asleep :
    (g num t : ℕ) (m : Move) (thread : Thread) (st st' : World)
    → Asleep g num st
    → CalmThread num thread
    → ReaderMove m
    → move t m thread st ≡ some st'
    → Asleep g num st'
unfolding move continue
move-Asleep g num t m (going []) st st' a c e h = begin_call-Asleep g num t st st' a m e h
move-Asleep g num t proceed (going (task ∷ tasks)) st st' a c e h =
    let done = perform-Calm g num task st.system c.0 a.apart in
    subst (Asleep g num) (some-injective h)
      (still g num t _ _ st a (All-append (Calm num) _ tasks done.0 c.1) done.1)
move-Asleep g num t wake (enqueue_waits message) st st' a c e h = absurd c
move-Asleep g num t wake (dequeue_waits words) st st' a c e h =
    dequeue_left-Asleep g num t st st' a words _
      (dequeue_woken-Calm words st.system.fifo a.open_fifo) h
move-Asleep g num t m thread st st' a c e h = absurd (cc)

asleep :
    (g num : ℕ) (begin st : World)
    → Asleep g num begin
    → Reachable ReaderMove begin st
    → Asleep g num st
asleep g num begin st a begun = a
asleep g num begin _ a (stepped st st' before t m e h) =
    let here = asleep g num begin st a before in
    move-Asleep g num t m (st.threads t) st st' here (here.calm t) e h

-- A fifo that accepts messages, is not ready for writing in its poll group, and that no thread is about to
-- make ready, stays so whatever its readers do: they may take every message, and a writer that polls
-- is not told that there is space.
pub Reachable-Asleep :
    (g num : ℕ) (begin st : World)
    → Asleep g num begin
    → Reachable ReaderMove begin st
    → (st.system.fifo.queue_full ≡ false) × (ready_bit g num st.system ≡ false)
Reachable-Asleep g num begin st a reach =
    let still_asleep = asleep g num begin st a reach in
    (still_asleep.open_fifo, still_asleep.unready)

-- ===== src/Fifo/Awake.antt =====
-- What keeps a reader from missing messages: a fifo that has some is ready in its poll group, or a
-- thread is on its way to make it so. src/include/xdp2/fifo.h.
use xdp.Base.{
  ℕ, Bool, true, false, List, [], ◌∷◌, ◌≡◌, ◌≢◌, ◌⊎◌, inl, inr, refl, sym, ap, ◌∙◌, some, put-here,
  put-other, put-cases, Bool-cases,
}
use xdp.Fifo.{Fifo, PollGroup, is_empty}
use xdp.Fifo.Groups.{
  System, Task, ready_at, with_group, with_ready, make_readable, readable_at, mark_non_readable,
  non_readable_at, recheck_readable, non_writable_at, enabled_read,
}
use xdp.Fifo.Setup.{with_mask}
use xdp.Fifo.Threads.{Thread, going, enqueue_waits, dequeue_waits}

abbrev pub ready_bit : ℕ → ℕ → System → Bool
ready_bit g num s = (s.groups g).fifos_ready num

abbrev pub mask_bit : ℕ → ℕ → System → Bool
mask_bit g num s = (s.groups g).fifos_mask num

-- The task leads to the fifo being made readable, in the group `g` under the number `num`, if it has a
-- message then.
abbrev pub Promises : ℕ → ℕ → Task → Type 0
Promises g num make_readable = Unit
Promises g num (readable_at h n) = (h ≡ g) × (n ≡ num)
Promises g num recheck_readable = Unit
Promises g num enabled_read = Unit
Promises g num task = ⊥

abbrev pub Pending : ℕ → ℕ → List Task → Type 0
Pending g num [] = ⊥
Pending g num (task ∷ tasks) = Promises g num task ⊎ Pending g num tasks

-- A task that makes the fifo not readable is followed by one that looks again.
abbrev pub Guards : ℕ → ℕ → Task → List Task → Type 0
Guards g num mark_non_readable tasks = Pending g num tasks
Guards g num (non_readable_at h n) tasks = Pending g num tasks
Guards g num (non_writable_at h n) tasks = n ≢ num
Guards g num task tasks = Unit

abbrev pub Guarded : ℕ → ℕ → List Task → Type 0
Guarded g num [] = Unit
Guarded g num (task ∷ tasks) = Guards g num task tasks × Guarded g num tasks

abbrev pub PendingThread : ℕ → ℕ → Thread → Type 0
PendingThread g num (going tasks) = Pending g num tasks
PendingThread g num (enqueue_waits message) = ⊥
PendingThread g num (dequeue_waits words) = ⊥

abbrev pub GuardedThread : ℕ → ℕ → Thread → Type 0
GuardedThread g num (going tasks) = Guarded g num tasks
GuardedThread g num (enqueue_waits message) = Unit
GuardedThread g num (dequeue_waits words) = Unit

-- The fifo is bound to the group `g` for reading under `num`, and for writing under another number.
pub record BoundTo (g num : ℕ) (fifo : Fifo) : Type 0 where
  pub group : fifo.read_poll ≡ some g
  pub number : fifo.read_poll_num ≡ num
  pub apart : fifo.write_poll_num ≢ num

-- A fifo that has messages and is enabled for polling is ready, or a thread is about to make it so.
pub record Awake (g num : ℕ) (s : System) (threads : ℕ → Thread) : Type 0 where
  pub bound : BoundTo g num s.fifo
  pub guarded : (t : ℕ) → GuardedThread g num (threads t)
  pub promise :
      is_empty s.fifo ≡ false
      → mask_bit g num s ≡ true
      → (ready_bit g num s ≡ true) ⊎ ((t : ℕ) × PendingThread g num (threads t))

-- A change of a poll group, seen at a group
pub with_group-cases {ℓ} :
    (P : PollGroup → Type ℓ) (g h : ℕ) (change : PollGroup → PollGroup) (s : System)
    → (g ≡ h → P (change (s.groups g)))
    → P (s.groups g)
    → P ((with_group h change s).groups g)
with_group-cases P g h change s here there =
    put-cases (λ x group. x ≡ g → P group) h (change (s.groups h)) s.groups
      (λ e. rw e (here (sym e))) (λ x d e. rw e there) g refl

module _ (g num : ℕ) (s : System) where
  pub ready-mask :
      (h n : ℕ) (b : Bool) → mask_bit g num (with_group h (with_ready n b) s) ≡ mask_bit g num s
  ready-mask h n b =
      with_group-cases (λ group. group.fifos_mask num ≡ mask_bit g num s) g h (with_ready n b) s
        (λ e. refl) refl

  pub ready-other :
      (h n : ℕ) (b : Bool)
      → n ≢ num
      → ready_bit g num (with_group h (with_ready n b) s) ≡ ready_bit g num s
  ready-other h n b d =
      with_group-cases (λ group. group.fifos_ready num ≡ ready_bit g num s) g h (with_ready n b) s
        (λ e. put-other n b (s.groups g).fifos_ready num (λ e'. d (sym e'))) refl

  pub ready-stays :
      (h n : ℕ)
      → ready_bit g num s ≡ true
      → ready_bit g num (with_group h (with_ready n true) s) ≡ true
  ready-stays h n on =
      with_group-cases (λ group. group.fifos_ready num ≡ true) g h (with_ready n true) s
        (λ e.
          put-cases (λ x bit. x ≡ num → bit ≡ true) n true (s.groups g).fifos_ready (λ e'. refl)
            (λ x d e'. rw e' on) num refl)
        on

  pub ready-here : ready_bit g num (with_group g (with_ready num true) s) ≡ true
  ready-here =
      ap (λ group. group.fifos_ready num) (put-here g (with_ready num true (s.groups g)) s.groups)
      ∙ put-here num true (s.groups g).fifos_ready

  pub mask-ready :
      (h n : ℕ) (b : Bool) → ready_bit g num (with_group h (with_mask n b) s) ≡ ready_bit g num s
  mask-ready h n b =
      with_group-cases (λ group. group.fifos_ready num ≡ ready_bit g num s) g h (with_mask n b) s
        (λ e. refl) refl

  pub mask-other :
      (h n : ℕ) (b : Bool)
      → n ≢ num
      → mask_bit g num (with_group h (with_mask n b) s) ≡ mask_bit g num s
  mask-other h n b d =
      with_group-cases (λ group. group.fifos_mask num ≡ mask_bit g num s) g h (with_mask n b) s
        (λ e. put-other n b (s.groups g).fifos_mask num (λ e'. d (sym e'))) refl

  pub mask-here : (b : Bool) → mask_bit g num (with_group g (with_mask num b) s) ≡ b
  mask-here b =
      ap (λ group. group.fifos_mask num) (put-here g (with_mask num b (s.groups g)) s.groups)
      ∙ put-here num b (s.groups g).fifos_mask

  pub ready_at-mask : (h n : ℕ) → mask_bit g num (ready_at h n s) ≡ mask_bit g num s
  unfolding ready_at
  ready_at-mask h n = elim (Bool-cases (mask_bit h n s)) [
    | inl on ↦ rw (ready_at, on) (ready-mask h n true)
    | inr off ↦ rw (ready_at, off) refl
  ]

  pub ready_at-stays :
      (h n : ℕ) → ready_bit g num s ≡ true → ready_bit g num (ready_at h n s) ≡ true
  unfolding ready_at
  ready_at-stays h n bit = elim (Bool-cases (mask_bit h n s)) [
    | inl on ↦ rw (ready_at, on) (ready-stays h n bit)
    | inr off ↦ rw (ready_at, off) bit
  ]

  pub ready_at-here : mask_bit g num s ≡ true → ready_bit g num (ready_at g num s) ≡ true
  unfolding ready_at
  ready_at-here on = rw (ready_at, on) ready-here

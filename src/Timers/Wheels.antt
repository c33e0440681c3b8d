-- ===== src/Timers/Wheels.antt =====
-- The invariant of the timer wheel, kept by adding and removing timers: src/lib/xdp2/timer.c.
use xdp.Base.{
  put, put-here, put-other, put-cases, ℕ, Bool, true, false, not, List, [], ◌∷◌, ◌≡◌, ◌≢◌, refl,
  sym, ap, subst, ◌∙◌, ◌==◌, if◌then◌else◌, remove, Member, NoDup, Bool-cases, inl, inr,
  Member-remove, Member-remove_other, remove-gone, Member→Avoids, NoDup-remove, arith,
}
use xdp.Timers.{Timer, Wheel, is_empty}

-- A timer is set just when it is in the slot that its index says, in no slot twice, and a bit is on just
-- where a slot has timers.
pub record SlotsOk (slots : ℕ → List ℕ) (timers : ℕ → Timer) (bitmap : ℕ → Bool) : Type 0 where
  pub slot_set :
      (i r : ℕ) → Member r (slots i) → ((timers r).timer_set ≡ true) × ((timers r).index ≡ i)
  pub set_slot : (r : ℕ) → (timers r).timer_set ≡ true → Member r (slots (timers r).index)
  pub nodup : (i : ℕ) → NoDup (slots i)
  pub bit : (i : ℕ) → bitmap i ≡ not (is_empty (slots i))

abbrev pub WheelOk : Wheel → Type 0
WheelOk w = SlotsOk w.slots w.timers w.slot_bitmap

remove-some : (r : ℕ) (xs : List ℕ) → is_empty (remove r xs) ≡ false → is_empty xs ≡ false
unfolding remove
remove-some r [] h = h
remove-some r (x ∷ xs) h = refl

module _ (slots : ℕ → List ℕ) (timers : ℕ → Timer) (bitmap : ℕ → Bool) (t : ℕ)
    (ok : SlotsOk slots timers bitmap) where
  abbrev unset : Timer
  unset = record (timers t) { timer_set = false }

  abbrev home : ℕ
  home = (timers t).index

  abbrev shorter : List ℕ
  shorter = remove t (slots home)

  in_removed : (i r : ℕ) → Member r (put home shorter slots i) → Member r (slots i) × (r ≢ t)
  in_removed i r =
      put-cases (λ x xs. Member r xs → Member r (slots x) × (r ≢ t)) home shorter slots
        (λ h. (
          Member-remove r t (slots home) h,
          λ e. remove-gone t (slots home) (ok.nodup home) (subst (λ y. Member y shorter) e h),
        ))
        (λ x d h. (h, λ e. d (sym (ok.slot_set x r h).1 ∙ ap (λ y. (timers y).index) e))) i

  set_removed :
      (r : ℕ)
      → (put t unset timers r).timer_set ≡ true
      → Member r (put home shorter slots (put t unset timers r).index)
  set_removed r =
      put-cases (λ y timer. timer.timer_set ≡ true → Member y (put home shorter slots timer.index))
        t unset timers (λ h. absurd (cc))
        (λ y d h.
          put-cases (λ x xs. Member y (slots x) → Member y xs) home shorter slots
            (Member-remove_other y t (slots home) d) (λ x e k. k) (timers y).index
            (ok.set_slot y h))
        r

  bit_removed :
      (i : ℕ)
      → (if is_empty shorter then put home false bitmap else bitmap) i
        ≡ not (is_empty (put home shorter slots i))
  unfolding put
  bit_removed i = elim (Bool-cases (i == home)) [
    | inl same ↦
        let e : i ≡ home = ground (arith, same) in
        elim (Bool-cases (is_empty shorter)) [
          | inl none_left ↦ rw (none_left, same, none_left) refl
          | inr some_left ↦
              let before = remove-some t (slots home) some_left in
              rw (some_left, same, some_left, e) (ok.bit home ∙ ap not before)
        ]
    | inr other ↦ elim (Bool-cases (is_empty shorter)) [
      | inl none_left ↦ rw (none_left, other) (ok.bit i)
      | inr some_left ↦ rw (some_left, other) (ok.bit i)
    ]
  ]

  -- Taking a timer out of its slot.
  pub removed-SlotsOk :
      SlotsOk
        (put home shorter slots)
        (put t unset timers)
        (if is_empty shorter then put home false bitmap else bitmap)
  removed-SlotsOk = record {
    slot_set = λ i r h.
        let before = in_removed i r h in
        rw (put-other t unset timers r before.1) (ok.slot_set i r before.0);
    set_slot = set_removed;
    nodup =
        put-cases (λ x xs. NoDup xs) home shorter slots
          (NoDup-remove t (slots home) (ok.nodup home)) (λ x d. ok.nodup x);
    bit = bit_removed;
  }

module _ (slots : ℕ → List ℕ) (timers : ℕ → Timer) (bitmap : ℕ → Bool) (t : ℕ)
    (ok : SlotsOk slots timers bitmap) (unset_timer : (timers t).timer_set ≡ false) (timer : Timer)
    (set : timer.timer_set ≡ true) where
  -- A timer that is not set is in no slot.
  elsewhere : (i r : ℕ) → Member r (slots i) → r ≢ t
  elsewhere i r h e = let was = (ok.slot_set i r h).0 in let was' = rw e at was in cc

  in_entered :
      (i r : ℕ)
      → Member r (put timer.index (t ∷ slots timer.index) slots i)
      → ((put t timer timers r).timer_set ≡ true) × ((put t timer timers r).index ≡ i)
  in_entered i r =
      put-cases
        (λ x xs.
          Member r xs
          → ((put t timer timers r).timer_set ≡ true) × ((put t timer timers r).index ≡ x))
        timer.index (t ∷ slots timer.index) slots
        (λ h. elim h [
          | inl here ↦ rw (← here, put-here t timer timers) (set, refl)
          | inr there ↦
              rw (put-other t timer timers r (elsewhere timer.index r there))
                (ok.slot_set timer.index r there)
        ])
        (λ x d h. rw (put-other t timer timers r (elsewhere x r h)) (ok.slot_set x r h)) i

  set_entered :
      (r : ℕ)
      → (put t timer timers r).timer_set ≡ true
      → Member r (put timer.index (t ∷ slots timer.index) slots (put t timer timers r).index)
  set_entered r =
      put-cases
        (λ y tm.
          tm.timer_set ≡ true → Member y (put timer.index (t ∷ slots timer.index) slots tm.index))
        t timer timers (λ h. rw (put-here timer.index (t ∷ slots timer.index) slots) (inl refl))
        (λ y d h.
          put-cases (λ x xs. Member y (slots x) → Member y xs) timer.index (t ∷ slots timer.index)
            slots (λ k. inr k) (λ x e k. k) (timers y).index (ok.set_slot y h))
        r

  -- Putting a timer that is not set into the slot of its index.
  pub entered-SlotsOk :
      SlotsOk
        (put timer.index (t ∷ slots timer.index) slots)
        (put t timer timers)
        (put timer.index true bitmap)
  unfolding put
  entered-SlotsOk = record {
    slot_set = in_entered;
    set_slot = set_entered;
    nodup =
        put-cases (λ x xs. NoDup xs) timer.index (t ∷ slots timer.index) slots
          (
            Member→Avoids t (slots timer.index) (λ h. elsewhere timer.index t h refl),
            ok.nodup timer.index,
          )
          (λ x d. ok.nodup x);
    bit = λ i. elim (Bool-cases (i == timer.index)) [
      | inl same ↦ rw same refl
      | inr other ↦ rw other (ok.bit i)
    ];
  }

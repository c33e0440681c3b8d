-- ===== src/Fifo/Begin.antt =====
-- A fifo that has been set up and bound: __xdp2_fifo_init and xdp2_fifo_bind_fifo_to_read_poll of
-- src/include/xdp2/fifo.h.
use xdp.Base.{
  ℕ, ◌*◌, ◌%◌, ◌^◌, ◌<◌, ◌≤◌, Bool, false, [], ◌≡◌, ◌≢◌, refl, sym, ◌∙◌, ap, inl, arith, put-here,
}
use xdp.Fifo.{uint_mod}
use xdp.Fifo.Queue.{Holds}
use xdp.Fifo.Groups.{System}
use xdp.Fifo.Setup.{init_fifo, finish_bind, bind_to_read_poll}
use xdp.Fifo.Threads.{World, going}
use xdp.Fifo.Logs.{InOrder}
use xdp.Fifo.Awake.{Awake, mask_bit}

-- A fifo that is initialised with a low water mark above zero, and whose words a 32-bit index reaches,
-- holds no message, and is bound to no poll group.
pub init_fifo-Holds :
    (queue : ℕ → ℕ) (num_ents ent_size low_water_mark : ℕ) (stats : Bool)
    → 0 < num_ents
    → num_ents < 2 ^ 31
    → num_ents * (ent_size % 256) < uint_mod
    → 0 < low_water_mark
    → Holds (init_fifo queue num_ents ent_size low_water_mark stats) []
unfolding init_fifo
init_fifo-Holds queue num_ents ent_size low_water_mark stats some_in small fits mark = record {
  size = small;
  words = fits;
  mark = mark;
  consumer_in = some_in;
  producer_in = (some_in, inl (omega arith));
  bound = omega arith;
  full = λ e. absurd (omega (arith, e, some_in));
  empty = λ e. refl;
  slots = tt;
}

-- Binding a fifo to a poll group, for reading, under a number other than the one for writing, where no
-- thread is in a call: no wake-up is owed, as the fifo is not enabled there.
pub bind_to_read_poll-Awake :
    (g num : ℕ) (s : System)
    → s.fifo.write_poll_num ≢ num
    → Awake g num (bind_to_read_poll g num s) (λ t. going [])
unfolding bind_to_read_poll finish_bind
bind_to_read_poll-Awake g num s other = record {
  bound = record { group = refl; number = refl; apart = other };
  guarded = λ t. tt;
  promise = λ some_in on.
      let off : mask_bit g num (bind_to_read_poll g num s) ≡ false =
        ap (λ group. group.fifos_mask num)
          (put-here g (finish_bind s.address num (s.groups g)) s.groups)
        ∙ put-here num false (s.groups g).fifos_mask in
      let both = sym off ∙ on in absurd (cc);
}

-- A bound fifo that holds nothing, before any thread has called.
abbrev pub fresh : ℕ → ℕ → System → World
fresh g num s = record {
  system = bind_to_read_poll g num s;
  threads = λ t. going [];
  sent = [];
  received = [];
}

pub fresh-InOrder :
    (words g num : ℕ) (s : System)
    → Holds s.fifo []
    → words ≤ s.fifo.ent_size
    → InOrder words (fresh g num s)
unfolding bind_to_read_poll
fresh-InOrder words g num s h fits = record {
  messages = [];
  carries = record {
    holds = record {
      size = h.size;
      words = h.words;
      mark = h.mark;
      consumer_in = h.consumer_in;
      producer_in = h.producer_in;
      bound = h.bound;
      full = h.full;
      empty = h.empty;
      slots = tt;
    };
    fits = fits;
    words = tt;
  };
  order = refl;
  threads = λ t. tt;
}

-- ===== src/Sd/Toy.antt =====
-- A toy card and its controller, for tests of the driver of src/sd/sd.cpp.
use raspberry_pi_gaming_cons.Common.{
  ℕ, zero, suc, ◌+◌, ◌<◌, get_or, replicate, ◌*◌, ◌/◌, ◌^◌, ◌≡◌, ◌≢◌, refl, inl, inr, bit_and, ◌==◌,
  if◌then◌else◌, Bool, true, false, arith, ltb, ap, ◌∙◌, Bool-cases,
}
use raspberry_pi_gaming_cons.Sd.{Register, Host, buffer_data, normal_interrupt_status, command}
use raspberry_pi_gaming_cons.Common.Bits.{zero-bit_and}
use raspberry_pi_gaming_cons.Sd.Pio.{IsStatusBit, IsHealthy, Setup, latch, Port, moving, IsTransfer}

-- The words of the card, the data port, and the registers of the transfer.
pub record Toy : Type 0 where
  pub words : ℕ → ℕ
  pub port : Port
  pub setup : Setup

abbrev word_at : Port → ℕ
word_at (moving is_read left a) = a

abbrev next_word : Port → Port
next_word (moving is_read zero a) = moving is_read zero a
next_word (moving is_read (suc left) a) = moving is_read left (a + 1)

abbrev pub toy_read : Register → Toy → ℕ × Toy
toy_read buffer_data w = (w.words (word_at w.port), record w { port = next_word w.port })
toy_read normal_interrupt_status w = (0x33, w)
toy_read _ w = (0, w)

abbrev pub toy_write : Register → ℕ → Toy → Toy
toy_write buffer_data v w = record w {
  words = λ a. if a == word_at w.port then v else w.words a;
  port = next_word w.port;
}
toy_write command v w = record w {
  port =
      moving (ltb v (24 * 256)) (w.setup.blocks * 128)
        ((w.setup.high * 2 ^ 16 + w.setup.low) / 512 * 128);
}
toy_write r v w = record w { setup = latch r v w.setup }

abbrev pub toy_host : Host Toy
toy_host = record {
  mmio_read = toy_read;
  mmio_write = toy_write;
  get_ticks = λ w. (0, w);
  cntfrq = 54000000;
}

pub toy_settles : (bit : ℕ) → IsStatusBit bit → (bit_and 0x33 bit == 0) ≡ false
toy_settles bit (inl e) = rw e refl
toy_settles bit (inr (inl e)) = rw e refl
toy_settles bit (inr (inr (inl e))) = rw e refl
toy_settles bit (inr (inr (inr e))) = rw e refl

pub toy_read-words : (r : Register) (w : Toy) (a : ℕ) → (toy_read r w).1.words a ≡ w.words a
toy_read-words buffer_data w a = refl
toy_read-words _ w a = refl

pub toy_read-port : (r : Register) (w : Toy) → r ≢ buffer_data → (toy_read r w).1.port ≡ w.port
toy_read-port buffer_data w ne = absurd (ne refl)
toy_read-port _ w ne = refl

pub toy_read-setup : (r : Register) (w : Toy) → (toy_read r w).1.setup ≡ w.setup
toy_read-setup buffer_data w = refl
toy_read-setup _ w = refl

pub toy_write-words :
    (r : Register) (v : ℕ) (w : Toy) (a : ℕ)
    → r ≢ buffer_data
    → (toy_write r v w).words a ≡ w.words a
toy_write-words buffer_data v w a ne = absurd (ne refl)
toy_write-words command v w a ne = refl
toy_write-words _ v w a ne = refl

pub toy_write-port :
    (r : Register) (v : ℕ) (w : Toy)
    → r ≢ buffer_data
    → r ≢ command
    → (toy_write r v w).port ≡ w.port
toy_write-port buffer_data v w ne ne' = absurd (ne refl)
toy_write-port command v w ne ne' = absurd (ne' refl)
toy_write-port _ v w ne ne' = refl

pub toy_write-setup : (r : Register) (v : ℕ) (w : Toy) → (toy_write r v w).setup ≡ latch r v w.setup
toy_write-setup buffer_data v w = refl
toy_write-setup command v w = refl
toy_write-setup _ v w = refl

-- The direction that the toy takes from the command is the one asked for.
pub toy_direction :
    (is_read : Bool) (count v : ℕ) (s : Setup)
    → IsTransfer is_read count v s
    → ltb v (24 * 256) ≡ is_read
toy_direction true count v s t = elim (Bool-cases (count == 1)) [
  | inl one ↦ let e : v ≡ 17 * 256 + 0x3A = t.asks ∙ rw one refl in rw e refl
  | inr more ↦ let e : v ≡ 18 * 256 + 0x3A = t.asks ∙ rw more refl in rw e refl
]
toy_direction false count v s t = elim (Bool-cases (count == 1)) [
  | inl one ↦ let e : v ≡ 24 * 256 + 0x3A = t.asks ∙ rw one refl in rw e refl
  | inr more ↦ let e : v ≡ 25 * 256 + 0x3A = t.asks ∙ rw more refl in rw e refl
]

abbrev pub toy-IsHealthy : IsHealthy toy_host
toy-IsHealthy = record {
  ccs = 0;
  contents = λ w. w.words;
  port = λ w. w.port;
  setup = λ w. w.setup;
  polls = λ _. 0;
  latency = 0;
  bounded = λ w. omega arith;
  settles = λ w bit h. inl (toy_settles bit h);
  no_error = λ w. refl;
  cmd_free = λ w. refl;
  dat_free = λ w. refl;
  no_card_error = λ w k h h'. zero-bit_and (2 ^ k);
  takes = λ w n a e. ap (λ p. w.words (word_at p)) e;
  read_moves = λ w n a e. ap next_word e;
  read_contents = toy_read-words;
  read_port = toy_read-port;
  read_setup = toy_read-setup;
  stores = λ v w n a b e. ap (λ p. if b == word_at p then v else w.words b) e;
  write_moves = λ v w n a e. ap next_word e;
  write_contents = toy_write-words;
  write_port = toy_write-port;
  write_setup = toy_write-setup;
  opens =
      λ is_read count v w some_block t. rw (toy_direction is_read count v w.setup t, t.length) refl;
}

-- Word `a` of the card is `a`.
abbrev pub counting : Toy
counting = record {
  words = λ a. a;
  port = moving true 0 0;
  setup = record { low = 0; high = 0; size = 0; blocks = 0; mode = 0 };
}

pub sevens-bytes : (n j : ℕ) → get_or (replicate n 7) j 0 < 256
sevens-bytes zero j = omega arith
sevens-bytes (suc n) zero = omega arith
sevens-bytes (suc n) (suc j) = sevens-bytes n j

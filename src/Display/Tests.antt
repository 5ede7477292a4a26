-- ===== src/Display/Tests.antt =====
-- A change of resolution against a VideoCore that grants every request.
use raspberry_pi_gaming_cons.Common.{
  ℕ, ◌≤◌, ◌<◌, ◌≡◌, ◌⊎◌, inl, inr, refl, List, [], ◌∷◌, ◌++◌, Bool, true, false, some, set, arith,
  all_below, bit_and, ◌==◌, ◌&&◌, ◌+◌, if◌then◌else◌,
}
use raspberry_pi_gaming_cons.Common.Fields.{ctz}
use raspberry_pi_gaming_cons.Pmm.{alloc_frames, alloc_frame}
use raspberry_pi_gaming_cons.Mmu.{Mmu, translate, map_range, map_from, map_page, get_or_alloc_table}
use raspberry_pi_gaming_cons.Dma.{Dma, dma_base, dma_alloc}
use raspberry_pi_gaming_cons.Display.{Display, set_resolution, resolution_request}
use raspberry_pi_gaming_cons.Display.Mailbox.{
  MailRegister, mail0_rd, Mailbox, send_command, Answers, send_command-ends,
}

abbrev fresh : Dma
fresh = record {
  dma_bump_ptr = dma_base;
  mmu = record {
    tables = λ _ _. 0;
    l1_table = 0x100000;
    pmm = record { bitmap = 1 ∷ []; phys_mem_start = 0x100000; total_frames = 64 };
  };
}

abbrev dark : Display
dark = record {
  fb = record { base = 0; size = 0; pitch = 0; width = 0; height = 0; mem = λ _. 0 };
  term_cols = 240;
  term_rows = 135;
  dma = fresh;
}

-- The response code, and the address, size and pitch of a framebuffer.
abbrev grants : List ℕ → List ℕ
grants words = set (set (set (set words 1 0x80000000) 31 0x3EAFE000) 32 3145728) 36 4096

abbrev refuses : List ℕ → List ℕ
refuses words = set words 1 0x80000001

refused : (set_resolution refuses 1024 768 dark).0 ≡ false
unfolding set_resolution resolution_request dma_alloc alloc_frames alloc_frame ctz map_range
    map_from map_page get_or_alloc_table all_below
refused = refl

-- A mailbox that gives one reply of another channel first, and the words that were written to it.
record Mail : Type 0 where
  other : Bool
  written : List ℕ

abbrev mail_read : MailRegister → Mail → ℕ × Mail
mail_read mail0_rd w = (if w.other then 3 else 8, record w { other = false })
mail_read _ w = (0, w)

abbrev mail_write : MailRegister → ℕ → Mail → Mail
mail_write r v w = record w { written = w.written ++ v ∷ [] }

abbrev toy_mail : Mailbox Mail
toy_mail = record { mmio_read = mail_read; mmio_write = mail_write }

abbrev count_others : Bool → ℕ
count_others true = 1
count_others false = 0

count_others-bound : (b : Bool) → count_others b ≤ 1
count_others-bound true = omega arith
count_others-bound false = omega arith

mail_replies :
    (b : Bool)
    → ((bit_and (if b then 3 else 8) 0xF == 8) ≡ true) ⊎ (count_others false < count_others b)
mail_replies true = inr (omega arith)
mail_replies false = inl refl

mail_keeps : (r : MailRegister) (w : Mail) → (mail_read r w).1.written ≡ w.written
mail_keeps mail0_rd w = refl
mail_keeps _ w = refl

abbrev toy_mail-Answers : Answers toy_mail
toy_mail-Answers = record {
  sent = λ w. w.written;
  polls = λ w. 0;
  others = λ w. count_others w.other;
  bound = 1;
  polls_bounded = λ w. omega arith;
  others_bounded = λ w. count_others-bound w.other;
  has_room = λ w. inl refl;
  has_reply = λ w. inl refl;
  replies = λ w. mail_replies w.other;
  polled = λ w. refl;
  reads = mail_keeps;
  writes = λ v w. refl;
}

abbrev full_box : Mail
full_box = record { other = true; written = [] }

-- The page at 0x2000 is at 0x3000.
abbrev one_page : Mmu
one_page = record (fresh.mmu) {
  tables = λ t i.
      if t == 0x100000 && i == 0
      then 0x101003
      else if t == 0x101000 && i == 0
      then 0x102003
      else if t == 0x102000 && i == 2
      then 0x3003
      else 0;
}

one_page-at : translate 0x2000 one_page ≡ 0x3000
unfolding translate
one_page-at = refl

send_command-ends_example :
    (w' : Mail) × (send_command toy_mail 2 0x2000 one_page full_box ≡ some w')
    × (w'.written ≡ [] ++ (translate 0x2000 one_page + 8) ∷ [])
send_command-ends_example =
    send_command-ends toy_mail-Answers 2 0x2000 one_page full_box (omega arith)
      (omega (arith, one_page-at)) (omega (arith, one_page-at))

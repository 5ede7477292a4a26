-- ===== src/Boot/Selftest.antt =====
-- When the test of the card passes.
use raspberry_pi_gaming_cons.Common.{
  ℕ, ◌≡◌, ◌↔◌, refl, List, [], ◌∷◌, true, false, ◌==◌, length, arith, ap, ap₂, ◌∙◌, bit_or, eq→==,
  Bool-cases, inl, inr, ==→eq,
}
use raspberry_pi_gaming_cons.Shell.Files.{FatFs, fa_read, fa_write}
use raspberry_pi_gaming_cons.Boot.{
  passed, fa_create_always, test_path, payload, differ, read_back, sd_selftest,
}

differ_self : (xs : List ℕ) → differ (length xs) xs xs ≡ false
unfolding differ
differ_self [] = refl
differ_self (x ∷ xs) = let same : (x == x) ≡ true = ground arith in rw (same, differ_self xs) refl

differ-eq : (xs ys : List ℕ) → length xs ≡ length ys → differ (length ys) xs ys ≡ false → xs ≡ ys
unfolding differ
differ-eq [] [] e h = refl
differ-eq [] (y ∷ ys) e h = absurd (omega arith)
differ-eq (x ∷ xs) [] e h = absurd (omega arith)
differ-eq (x ∷ xs) (y ∷ ys) e h =
    let e' : length xs ≡ length ys = omega arith in
    elim (Bool-cases (x == y)) [
      | inr other ↦ absurd (ground arith)
      | inl same ↦
          let rest : differ (length ys) xs ys ≡ false = ground arith in
          ap₂ (λ a as'. a ∷ as') (==→eq x y same) (differ-eq xs ys e' rest)
    ]

module _ {W F D : Type 0} (fs : FatFs W F D) where
  abbrev pub created : W → ℕ × (F × W)
  created w = fs.f_open test_path (bit_or fa_write fa_create_always) w

  abbrev pub written : W → ℕ × (ℕ × (F × W))
  written w = fs.f_write (created w).1.0 payload (created w).1.1

  abbrev pub reopened : W → ℕ × (F × W)
  reopened w = fs.f_open test_path fa_read (fs.f_close (written w).1.1.0 (written w).1.1.1)

  abbrev pub got : W → ℕ × (List ℕ × (F × W))
  got w = fs.f_read (reopened w).1.0 63 (reopened w).1.1

  -- Each call of FatFs succeeds, the whole text is written, and just that text is read back.
  pub record Verified (w : W) : Type 0 where
    pub created_ok : (created w).0 ≡ 0
    pub written_ok : (written w).0 ≡ 0
    pub complete : (written w).1.0 ≡ length payload
    pub reopened_ok : (reopened w).0 ≡ 0
    pub got_ok : (got w).0 ≡ 0
    pub same : (got w).1.0 ≡ payload

  -- The test passes exactly when the file can be created, all bytes of the text are written, the file can
  -- be opened again, and the bytes that are read from it, without an error, are those of the text.
  pub sd_selftest-Verified : (w : W) → ((sd_selftest fs w).0 ≡ passed) ↔ Verified w
  unfolding sd_selftest read_back
  sd_selftest-Verified w = (sound, complete)
    where
      sound : (sd_selftest fs w).0 ≡ passed → Verified w
      sound = elim (Bool-cases ((created w).0 == 0)) [
        | inr no_file ↦ rw no_file (λ h. cc)
        | inl file ↦ rw file (elim (Bool-cases ((written w).0 == 0)) [
          | inr failed ↦ rw failed (λ h. cc)
          | inl wrote ↦ rw wrote (elim (Bool-cases ((written w).1.0 == length payload)) [
            | inr short ↦ rw short (λ h. cc)
            | inl whole ↦ rw whole (elim (Bool-cases ((reopened w).0 == 0)) [
              | inr gone ↦ rw gone (λ h. cc)
              | inl again ↦ rw again (elim (Bool-cases ((got w).0 == 0)) [
                | inr failed ↦ rw failed (λ h. cc)
                | inl read ↦ rw read (elim (Bool-cases (length (got w).1.0 == length payload)) [
                  | inr short ↦ rw short (λ h. cc)
                  | inl long ↦
                      rw long (elim (Bool-cases (differ (length payload) (got w).1.0 payload)) [
                        | inl other ↦ rw other (λ h. cc)
                        | inr equal ↦ λ h. record {
                          created_ok = ==→eq _ _ file;
                          written_ok = ==→eq _ _ wrote;
                          complete = ==→eq _ _ whole;
                          reopened_ok = ==→eq _ _ again;
                          got_ok = ==→eq _ _ read;
                          same = differ-eq (got w).1.0 payload (==→eq _ _ long) equal;
                        }
                      ])
                ])
              ])
            ])
          ])
        ])
      ]

      complete : Verified w → (sd_selftest fs w).0 ≡ passed
      complete v =
          let equal : differ (length payload) (got w).1.0 payload ≡ false =
            ap (λ xs. differ (length payload) xs payload) v.same ∙ differ_self payload in
          rw
            (
              eq→== (created w).0 0 v.created_ok,
              eq→== (written w).0 0 v.written_ok,
              eq→== (written w).1.0 (length payload) v.complete,
              eq→== (reopened w).0 0 v.reopened_ok,
              eq→== (got w).0 0 v.got_ok,
              eq→== (length (got w).1.0) (length payload) (ap length v.same),
              equal,
            )
            refl

-- ===== src/Mmu/Setup.antt =====
-- `mmu_init`: the registers, the top-level table and the identity map of the regions that the kernel needs.
use raspberry_pi_gaming_cons.Common.{
  ℕ, ◌-◌, ◌*◌, ◌^◌, bit_and, bit_or, Bool, true, List, [], ◌∷◌, Option, none, some, ◌==◌,
  if◌then◌else◌,
}
use raspberry_pi_gaming_cons.Common.Words.{sub64, not64}
use raspberry_pi_gaming_cons.Pmm.{page_size, phys_mem_end, alloc_frame, pmm_init}
use raspberry_pi_gaming_cons.Mmu.{Mmu, pte_normal_rw, pte_device_rw, clear_table, map_range}

abbrev pub peripheral_base : ℕ
peripheral_base = 0x1C00000000

abbrev pub local_peripheral_base : ℕ
local_peripheral_base = 0x107FFF8000

abbrev pub mailbox_base : ℕ
mailbox_base = 0x107c013880

abbrev pub sdio0_base : ℕ
sdio0_base = 0x1000fff000

abbrev pub pinctrl_base : ℕ
pinctrl_base = 0x107d504100

-- `MAILBOX_BASE & ~0xFFFULL` and `PINCTRL_BASE & ~(PAGE_SIZE - 1)`
abbrev pub mailbox_page_base : ℕ
mailbox_page_base = bit_and mailbox_base (not64 0xFFF)

abbrev pub pinctrl_page_base : ℕ
pinctrl_page_base = bit_and pinctrl_base (not64 (page_size - 1))

-- A call `map(base, base, size, flags)`.
pub record Region : Type 0 where
  pub base : ℕ
  pub size : ℕ
  pub flags : ℕ

abbrev pub region : ℕ → ℕ → ℕ → Region
region base size flags = record { base = base; size = size; flags = flags }

-- The calls of `map` in `mmu_init`, in their order.
abbrev pub regions : ℕ → List Region
regions start =
    region 0 0x80000 pte_normal_rw
    ∷ region 0x80000 (sub64 start 0x80000) pte_normal_rw
    ∷ region start (sub64 phys_mem_end start) pte_normal_rw
    ∷ region peripheral_base 0x410000 pte_device_rw
    ∷ region local_peripheral_base 0x8000 pte_device_rw
    ∷ region mailbox_page_base page_size pte_device_rw
    ∷ region sdio0_base page_size pte_device_rw
    ∷ region pinctrl_page_base page_size pte_device_rw
    ∷ []

-- Their results are not looked at.
abbrev pub map_all : List Region → Mmu → Mmu
map_all [] m = m
map_all (r ∷ rest) m = map_all rest (map_range r.base r.base r.size r.flags m).1

-- The system registers that `mmu_init` writes, with `MMU_ACTIVE`.
pub record Boot : Type 0 where
  pub mmu : Mmu
  pub mair : ℕ
  pub tcr : ℕ
  pub ttbr0 : ℕ
  pub sctlr : ℕ
  pub mmu_active : Bool

abbrev pub mair_value : ℕ
mair_value = bit_or (bit_or 0xFF (0x00 * 2 ^ 8)) (0x44 * 2 ^ 16)

abbrev pub tcr_value : ℕ
tcr_value =
    bit_or (bit_or (bit_or (bit_or (bit_or (bit_or 25 (2 ^ 8)) (2 ^ 10)) (3 * 2 ^ 12)) 0) (2 ^ 23))
      (2 * 2 ^ 32)

-- The state in which the first `map` runs: the top-level table is cleared, and everything else in memory
-- is as found.
abbrev pub with_root : ℕ → (ℕ → ℕ → ℕ) → Mmu
with_root kernel_end memory =
    let r = alloc_frame (pmm_init kernel_end) in
    clear_table r.0 (record { tables = memory; l1_table = r.0; pmm = r.1 })

-- The state at the end; `sctlr` is what SCTLR_EL1 held.
abbrev pub booted : ℕ → ℕ → (ℕ → ℕ → ℕ) → Boot
booted kernel_end sctlr memory =
    let p = pmm_init kernel_end in
    record {
      mmu = map_all (regions p.phys_mem_start) (with_root kernel_end memory);
      mair = mair_value;
      tcr = tcr_value;
      ttbr0 = (alloc_frame p).0;
      sctlr = bit_or (bit_or (bit_or sctlr 1) (2 ^ 2)) (2 ^ 12);
      mmu_active = true;
    }

-- `none` is the endless loop when no frame is left for the top-level table.
unfoldable pub mmu_init : ℕ → ℕ → (ℕ → ℕ → ℕ) → Option Boot
mmu_init kernel_end sctlr memory =
    if (alloc_frame (pmm_init kernel_end)).0 == 0
    then none
    else some (booted kernel_end sctlr memory)

-- ===== src/PageMap/Entries.antt =====
-- The bits of the entries of page tables, in include/syscom/page_map.h and memory/page_map.c.
use systemcommander.Common.{
  ℕ, ◌+◌, ◌-◌, ◌*◌, ◌/◌, ◌%◌, ◌^◌, ◌<◌, ◌≡◌, refl, ap, ◌∙◌, true, false, arith, bit_and, bit_or,
  ◌==◌,
}
use systemcommander.Common.Bits.{
  bit_or_low, bit_or_step, bit_and-ones, bit_and_shifted, bit_or_disjoint,
}
use systemcommander.PageMap.{
  is_present, is_large, page_ps, pde_addr, page_phys_addr, leaf_entry, page_present, page_rw,
  page_user,
}

-- The frame that an entry points to.
abbrev pub frame_of : ℕ → ℕ
frame_of entry = entry / 4096 % 2 ^ 40

pub pde_addr_lem : (entry : ℕ) → pde_addr entry ≡ frame_of entry * 4096
pde_addr_lem entry =
    bit_and_shifted 12 entry (2 ^ 40 - 1)
    ∙ ap (λ (t : ℕ). t * 4096) (bit_and-ones 40 (entry / 4096))

pub page_phys_addr_lem : (a : ℕ) → page_phys_addr a ≡ a / 4096 % 2 ^ 52 * 4096
page_phys_addr_lem a =
    bit_and_shifted 12 a (2 ^ 52 - 1) ∙ ap (λ (t : ℕ). t * 4096) (bit_and-ones 52 (a / 4096))

present_lem : (entry : ℕ) → bit_and entry page_present ≡ entry % 2
present_lem = bit_and-ones 1

halves : (x y : ℕ) → bit_or (x * 2 + 1) (y * 2) ≡ bit_or x y * 2 + 1
halves x y =
    let low : (x * 2 + 1) / 2 ≡ x = omega arith in
    let low' : y * 2 / 2 ≡ y = omega arith in
    bit_or_step (x * 2 + 1) (y * 2) ∙ rw (low, low') omega arith

or_two : (x : ℕ) → bit_or (x * 4 + 1) 2 ≡ x * 4 + 3
or_two x =
    ap (λ (t : ℕ). bit_or t 2) (omega arith)
    ∙ halves (x * 2) 1
    ∙ ap (λ (t : ℕ). t * 2 + 1) (bit_or_disjoint 1 x 1 (omega arith))
    ∙ omega arith

or_four : (x : ℕ) → bit_or (x * 8 + 3) 4 ≡ x * 8 + 7
or_four x =
    ap (λ (t : ℕ). bit_or t 4) (omega arith)
    ∙ halves (x * 4 + 1) 2
    ∙ ap (λ (t : ℕ). t * 2 + 1) (or_two x)
    ∙ omega arith

-- The entry that links a new table.
pub link_entry :
    (frame : ℕ)
    → bit_or (bit_or (bit_or (frame * 4096) page_present) page_rw) page_user ≡ frame * 4096 + 7
link_entry frame =
    let one : bit_or (frame * 4096) 1 ≡ frame * 4096 + 1 =
      bit_or_disjoint 12 frame 1 (omega arith) in
    rw one (
      ap (λ (t : ℕ). bit_or (bit_or t 2) 4) (omega arith)
      ∙ ap (λ (t : ℕ). bit_or t 4) (or_two (frame * 1024))
      ∙ ap (λ (t : ℕ). bit_or t 4) (omega arith)
      ∙ or_four (frame * 512)
      ∙ omega arith)

pub link-is_present : (frame : ℕ) → is_present (frame * 4096 + 7) ≡ true
link-is_present frame =
    let e : bit_and (frame * 4096 + 7) 1 ≡ 1 = present_lem (frame * 4096 + 7) ∙ omega arith in
    rw e refl

pub link-is_large : (frame : ℕ) → is_large (frame * 4096 + 7) ≡ false
link-is_large frame =
    let bit : bit_and ((frame * 4096 + 7) / 2 ^ 7) 1 ≡ 0 =
      present_lem ((frame * 4096 + 7) / 2 ^ 7) ∙ omega arith in
    let e : bit_and (frame * 4096 + 7) page_ps ≡ 0 =
      bit_and_shifted 7 (frame * 4096 + 7) 1 ∙ ap (λ (t : ℕ). t * 2 ^ 7) bit in
    rw e refl

pub zero-is_present : is_present 0 ≡ false
zero-is_present = refl

-- The entry of the last level for the frame of a physical address.
pub leaf_entry_lem :
    (physical flags : ℕ)
    → 0 < physical
    → physical < 2 ^ 52
    → flags < 4096
    → (is_present (leaf_entry physical flags) ≡ true)
      × (frame_of (leaf_entry physical flags) ≡ physical / 4096)
leaf_entry_lem physical flags some_page range low =
    let real : (physical == 0) ≡ false = ground arith in
    let small : physical / 4096 % 2 ^ 52 ≡ physical / 4096 = omega arith in
    let one = bit_or_disjoint 12 (physical / 4096) 1 (omega arith) in
    let all = bit_or_low 12 (physical / 4096) 1 flags (omega arith) low in
    let bit : bit_and (physical / 4096 * 2 ^ 12 + bit_or 1 flags) page_present ≡ 1 =
      present_lem (physical / 4096 * 2 ^ 12 + bit_or 1 flags)
      ∙ omega (arith, bit_or_step 1 flags) in
    rw (real, page_phys_addr_lem physical, small, one, all.0) (rw bit refl, omega (arith, all.1))

-- ===== src/PageMap/Levels.antt =====
-- One level of `map_virtual_memory` of memory/page_map.c: the table that an entry links to is there,
-- or it is made from a free frame.
use systemcommander.Common.{
  ◌⊎◌, ℕ, ◌+◌, ◌*◌, ◌^◌, ◌≤◌, ◌<◌, ◌≡◌, ◌≢◌, refl, true, false, ◌&&◌, arith, add64, ltb, leb, ◌==◌,
  u64_mod,
}
use systemcommander.Phys.{request_page, lock_page}
use systemcommander.PageMap.{
  Machine, slot, is_present, next_table, paging_phys_alloc, clear_page, store_word,
}
use systemcommander.Bitmap.Laws.{==_refl}
use systemcommander.PageMap.Entries.{frame_of, pde_addr_lem, link_entry}

-- The address is one of the frame's page in the window.
abbrev pub InFrame : ℕ → ℕ → ℕ → Type 0
InFrame hhdm_offset frame a =
    frame * 4096 + hhdm_offset ≤ a × (a < frame * 4096 + hhdm_offset + 4096)

pub ne-== : (a b : ℕ) → a ≢ b → (a == b) ≡ false
ne-== a b other = ground arith

within_iff : (low a : ℕ) → low ≤ a × (a < low + 4096) → (leb low a && ltb a (low + 4096)) ≡ true
within_iff low a inside = ground arith

without : (low a : ℕ) → (a < low) ⊎ (low + 4096 ≤ a) → (leb low a && ltb a (low + 4096)) ≡ false
without low a outside = ground arith

different_frame :
    (hhdm_offset other new a : ℕ)
    → other ≢ new
    → InFrame hhdm_offset other a
    → (a < new * 4096 + hhdm_offset) ⊎ (new * 4096 + hhdm_offset + 4096 ≤ a)
different_frame hhdm_offset other new a apart inside = omega arith

module _ (hhdm_offset frames : ℕ) (window : frames * 4096 + hhdm_offset ≤ u64_mod)
    (range : frames ≤ 2 ^ 40) where
  -- The table in a frame.
  pub table_at : ℕ → ℕ
  table_at frame = frame * 4096 + hhdm_offset

  pub slot-InFrame :
      (frame index : ℕ)
      → frame < frames
      → index < 512
      → slot (frame * 4096 + hhdm_offset) index ≡ frame * 4096 + hhdm_offset + index * 8
  slot-InFrame frame index inside small = omega arith

  pub different_slot :
      (frame index other a : ℕ)
      → frame < frames
      → index < 512
      → other ≢ frame
      → InFrame hhdm_offset other a
      → a ≢ slot (frame * 4096 + hhdm_offset) index
  different_slot frame index other a inside small apart inside_other =
      omega (arith, slot-InFrame frame index inside small)

  module _ (frame index : ℕ) (s : Machine) (inside : frame < frames) (small : index < 512) where
    entry : ℕ
    entry = s.word (slot (frame * 4096 + hhdm_offset) index)

    pub next_table-present :
        is_present (s.word (slot (frame * 4096 + hhdm_offset) index)) ≡ true
        → frame_of (s.word (slot (frame * 4096 + hhdm_offset) index)) < frames
        → next_table hhdm_offset (frame * 4096 + hhdm_offset) index s
          ≡ (s, frame_of (s.word (slot (frame * 4096 + hhdm_offset) index)) * 4096 + hhdm_offset)
    unfolding next_table
    next_table-present present below =
        let e = s.word (slot (frame * 4096 + hhdm_offset) index) in
        let wrap : add64 (frame_of e * 4096) hhdm_offset ≡ frame_of e * 4096 + hhdm_offset =
          omega arith in
        rw (present, pde_addr_lem e, wrap) refl

    -- The memory once the table in `new` is linked.
    pub linked : ℕ → ℕ → ℕ
    linked new =
        store_word (clear_page s.word (new * 4096 + hhdm_offset))
          (slot (frame * 4096 + hhdm_offset) index) (new * 4096 + 7)

    pub next_table-absent :
        (new : ℕ)
        → new < frames
        → is_present (s.word (slot (frame * 4096 + hhdm_offset) index)) ≡ false
        → request_page s.allocator ≡ (lock_page s.allocator (new * 4096), new * 4096)
        → next_table hhdm_offset (frame * 4096 + hhdm_offset) index s ≡ (
          record { allocator = lock_page s.allocator (new * 4096); word = linked new },
          new * 4096 + hhdm_offset,
        )
    unfolding next_table paging_phys_alloc linked
    next_table-absent new below absent request =
        let wrap : add64 (new * 4096) hhdm_offset ≡ new * 4096 + hhdm_offset = omega arith in
        let same : frame_of (new * 4096 + 7) ≡ new = omega arith in
        let at = slot (frame * 4096 + hhdm_offset) index in
        rw
          (
            absent,
            request,
            wrap,
            link_entry new,
            ==_refl at,
            pde_addr_lem (new * 4096 + 7),
            same,
            wrap,
          )
          refl

    -- What the new link changes: the frame of the new table is cleared, and one entry is written.
    pub linked-entry :
        (new : ℕ) → linked new (slot (frame * 4096 + hhdm_offset) index) ≡ new * 4096 + 7
    unfolding linked
    linked-entry new = rw (==_refl (slot (frame * 4096 + hhdm_offset) index)) refl

    pub linked-cleared : (new a : ℕ) → new ≢ frame → InFrame hhdm_offset new a → linked new a ≡ 0
    unfolding linked
    linked-cleared new a other inside_new =
        let apart : (a == slot (frame * 4096 + hhdm_offset) index) ≡ false =
          ne-== a _ (different_slot frame index new a inside small other inside_new) in
        let within : (leb (new * 4096 + hhdm_offset) a && ltb a (new * 4096 + hhdm_offset + 4096))
            ≡ true =
          within_iff _ a inside_new in
        rw (apart, within) refl

    pub linked-other :
        (new other a : ℕ)
        → other ≢ frame
        → other ≢ new
        → InFrame hhdm_offset other a
        → linked new a ≡ s.word a
    unfolding linked
    linked-other new other a apart apart' inside_other =
        let elsewhere : (a == slot (frame * 4096 + hhdm_offset) index) ≡ false =
          ne-== a _ (different_slot frame index other a inside small apart inside_other) in
        let outside : (leb (new * 4096 + hhdm_offset) a && ltb a (new * 4096 + hhdm_offset + 4096))
            ≡ false =
          without _ a (different_frame hhdm_offset other new a apart' inside_other) in
        rw (elsewhere, outside) refl

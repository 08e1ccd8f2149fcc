-- ===== src/PageMap/Translate.antt =====
-- What the processor makes of the tables of memory/page_map.c: the physical address behind a virtual
-- one, before and after `map_virtual_memory`.
use systemcommander.Common.{
  zero, suc, ℕ, ◌+◌, ◌*◌, ◌/◌, ◌%◌, ◌^◌, ◌≤◌, ◌<◌, ◌≡◌, refl, true, false, List, [], ◌∷◌, Option,
  some, none, arith, if◌then◌else◌, u64_mod, Bool, ◌||◌, ◌&&◌, ltb, leb, ◌==◌,
}
use systemcommander.Common.Bits.{bit_and_1ff}
use systemcommander.Bitmap.Laws.{==_refl}
use systemcommander.Phys.Pages.{taken}
use systemcommander.Phys.Frames.{HasFree}
use systemcommander.PageMap.{
  Machine, slot, is_present, store_word, leaf_entry, map_virtual_memory, pml4_entry, pdpt_entry,
  pd_entry, pt_entry,
}
use systemcommander.PageMap.Entries.{frame_of, leaf_entry_lem}
use systemcommander.PageMap.Walk.{walk, descend, map_virtual_memory-descends}
use systemcommander.PageMap.Levels.{ne-==, different_slot}
use systemcommander.PageMap.Descend.{AllSmall, Sound, descend-Reached}

-- The indices of the three upper levels.
abbrev pub upper : ℕ → List ℕ
upper virtual = pml4_entry virtual ∷ pdpt_entry virtual ∷ pd_entry virtual ∷ []

-- The last step of the processor's walk.
unfoldable pub leaf : (ℕ → ℕ) → ℕ → Option ℕ → Option ℕ
leaf word virtual none = none
leaf word virtual (some table) =
    let entry = word (slot table (pt_entry virtual)) in
    if is_present entry then some (frame_of entry * 4096 + virtual % 4096) else none

-- The upper bits of the address repeat bit 47.
abbrev pub is_canonical : ℕ → Bool
is_canonical virtual =
    ltb virtual (2 ^ 47) || (leb (0xffff_8000_0000_0000) virtual && ltb virtual (2 ^ 64))

-- The physical address behind a virtual one, with the tables from `pml4` on; none where an entry is
-- not present or maps a large page, and where the address is not canonical.
unfoldable pub translate : ℕ → (ℕ → ℕ) → ℕ → ℕ → Option ℕ
unfolding leaf
translate hhdm_offset word pml4 virtual =
    if is_canonical virtual
    then leaf word virtual (walk hhdm_offset word pml4 (upper virtual))
    else none

upper-small : (virtual : ℕ) → AllSmall (upper virtual)
upper-small virtual = (
  omega (arith, bit_and_1ff (virtual / 2 ^ 39)),
  (
    omega (arith, bit_and_1ff (virtual / 2 ^ 30)),
    (omega (arith, bit_and_1ff (virtual / 2 ^ 21)), tt),
  ),
)

-- The state in which `map_virtual_memory` may be called for `virtual`: the frames are in the window
-- behind `hhdm_offset`, the table in frame `root` and those on the way from it, as far as they are
-- there, are in different frames that the allocator has as taken, and three frames are free. The address
-- is canonical, and no entry on the way maps a large page.
pub record Mappable (hhdm_offset frames root virtual : ℕ) (s : Machine) : Type 0 where
  pub window : frames * 4096 + hhdm_offset ≤ u64_mod
  pub canonical : is_canonical virtual ≡ true
  pub range : frames ≤ 2 ^ 40
  pub inside : root < frames
  pub busy : taken s.allocator root ≡ true
  pub room : HasFree frames 3 s.allocator
  pub sound : Sound hhdm_offset frames window range s [] root (upper virtual)

-- The entry of the last level, when `map_virtual_memory` is done.
mapped_leaf :
    (word : ℕ → ℕ) (table index physical flags virtual : ℕ)
    → physical < 2 ^ 52
    → flags < 4096
    → (if is_present
          (store_word word (slot table index) (leaf_entry physical flags) (slot table index))
        then some (
            frame_of
                (store_word word (slot table index) (leaf_entry physical flags) (slot table index))
              * 4096
            + virtual % 4096)
        else none)
      ≡ (if physical == 0 then none else some (physical / 4096 * 4096 + virtual % 4096))
mapped_leaf word table index zero flags virtual range low = rw (==_refl (slot table index)) refl
mapped_leaf word table index (suc p) flags virtual range low =
    let l = leaf_entry_lem (suc p) flags (omega arith) range low in
    let real : (suc p == 0) ≡ false = ne-== (suc p) 0 (omega arith) in
    rw (==_refl (slot table index), l.0, l.1, real) refl

-- In a state that is `Mappable` for `virtual`, a canonical address without large pages on the way, for a physical address below 2 ^ 52 and flags among the
-- twelve low bits: after `map_virtual_memory` the processor takes `virtual` to the same place in the
-- frame of `physical`, and where `physical` is 0 it finds nothing there. The tables that are missing
-- are made on the way.
pub map_virtual_memory-translates :
    (hhdm_offset frames root virtual physical flags : ℕ) (s : Machine)
    → physical < 2 ^ 52
    → flags < 4096
    → Mappable hhdm_offset frames root virtual s
    → translate hhdm_offset
        (map_virtual_memory hhdm_offset (root * 4096 + hhdm_offset) virtual physical flags s).word
        (root * 4096 + hhdm_offset)
        virtual
      ≡ (if physical == 0 then none else some (physical / 4096 * 4096 + virtual % 4096))
unfolding translate leaf
map_virtual_memory-translates hhdm_offset frames root virtual physical flags s range low m =
    let r = descend hhdm_offset (root * 4096 + hhdm_offset) (upper virtual) s in
    let reached =
      descend-Reached hhdm_offset frames m.window m.range (upper virtual) s [] root
        (upper-small virtual) m.inside m.busy tt tt m.room m.sound in
    let word = store_word r.0.word (slot r.1 (pt_entry virtual)) (leaf_entry physical flags) in
    let found = reached.walks word (λ other a apart at.
      let elsewhere : (a == slot r.1 (pt_entry virtual)) ≡ false = ne-== a _ (
        rw reached.table (
          different_slot hhdm_offset frames m.window m.range reached.last (pt_entry virtual) other a
            reached.inside (omega (arith, bit_and_1ff (virtual / 2 ^ 12))) apart at)) in
      rw elsewhere refl) in
    rw
      (
        m.canonical,
        map_virtual_memory-descends hhdm_offset (root * 4096 + hhdm_offset) virtual physical flags
            s,
        found,
      )
      (mapped_leaf r.0.word r.1 (pt_entry virtual) physical flags virtual range low)

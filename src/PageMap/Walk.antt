-- ===== src/PageMap/Walk.antt =====
-- The page walk of the processor over the tables that page_map.c writes, and the walk of
-- `map_virtual_memory` that makes the tables on the way.
use systemcommander.Common.{
  ℕ, ◌≡◌, refl, List, [], ◌∷◌, Option, some, none, ◌&&◌, not, if◌then◌else◌, add64,
}
use systemcommander.PageMap.{
  Machine, slot, is_present, is_large, pde_addr, next_table, map_virtual_memory, store_word,
  leaf_entry, pml4_entry, pdpt_entry, pd_entry, pt_entry,
}

module _ (hhdm_offset : ℕ) where
  -- The table that the indices lead to, from a table at an address in the window; none where an
  -- entry on the way is not present, or maps a large page, where the processor goes no further.
  unfoldable pub walk : (ℕ → ℕ) → ℕ → List ℕ → Option ℕ
  walk word table [] = some table
  walk word table (index ∷ indices) =
      let rest = walk word (add64 (pde_addr (word (slot table index))) hhdm_offset) indices in
      if is_present (word (slot table index)) && not (is_large (word (slot table index)))
      then rest
      else none

  -- The three levels of `map_virtual_memory` one after another.
  unfoldable pub descend : ℕ → List ℕ → Machine → Machine × ℕ
  descend table [] s = (s, table)
  descend table (index ∷ indices) s =
      let r = next_table hhdm_offset table index s in descend r.1 indices r.0

  pub map_virtual_memory-descends :
      (pml4 virtual physical flags : ℕ) (s : Machine)
      → let r = descend pml4 (pml4_entry virtual ∷ pdpt_entry virtual ∷ pd_entry virtual ∷ []) s in
        map_virtual_memory hhdm_offset pml4 virtual physical flags s ≡ record r.0 {
          word = store_word r.0.word (slot r.1 (pt_entry virtual)) (leaf_entry physical flags);
        }
  unfolding map_virtual_memory descend
  map_virtual_memory-descends pml4 virtual physical flags s = refl

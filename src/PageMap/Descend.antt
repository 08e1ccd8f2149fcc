-- ===== src/PageMap/Descend.antt =====
-- The tables that `map_virtual_memory` of memory/page_map.c goes through or makes: afterwards the
-- processor's walk finds the same ones.
use systemcommander.Common.{
  suc, length, inl, inr, Bool-cases, ℕ, ◌+◌, ◌*◌, ◌^◌, ◌≤◌, ◌<◌, ◌≡◌, ◌≢◌, refl, sym, ap, ◌∙◌, true,
  false, List, [], ◌∷◌, some, arith, add64, u64_mod,
}
use systemcommander.Phys.{Allocator, lock_page}
use systemcommander.Phys.Pages.{taken}
use systemcommander.Phys.Frames.{HasFree, Given, request_page-Given}
use systemcommander.PageMap.{Machine, slot, is_present, is_large}
use systemcommander.PageMap.Entries.{frame_of, pde_addr_lem, link-is_present, link-is_large}
use systemcommander.PageMap.Walk.{walk, descend}
use systemcommander.PageMap.Levels.{
  InFrame, slot-InFrame, next_table-present, next_table-absent, linked, linked-entry,
  linked-cleared, linked-other,
}

-- None of the frames is `frame`.
abbrev pub Apart : ℕ → List ℕ → Type 0
Apart frame [] = Unit
Apart frame (x ∷ xs) = (frame ≢ x) × Apart frame xs

abbrev pub AllTaken : Allocator → List ℕ → Type 0
AllTaken a [] = Unit
AllTaken a (x ∷ xs) = (taken a x ≡ true) × AllTaken a xs

abbrev pub AllSmall : List ℕ → Type 0
AllSmall [] = Unit
AllSmall (x ∷ xs) = (x < 512) × AllSmall xs

free-Apart :
    (a : Allocator) (frame : ℕ) (xs : List ℕ)
    → taken a frame ≡ false
    → AllTaken a xs
    → Apart frame xs
free-Apart a frame [] free all = tt
free-Apart a frame (x ∷ xs) free all =
    (λ e. cc (ap (λ (p : ℕ). taken a p) e, free, all.0), free-Apart a frame xs free all.1)

AllTaken-mono :
    (a b : Allocator) (xs : List ℕ)
    → ((p : ℕ) → taken a p ≡ true → taken b p ≡ true)
    → AllTaken a xs
    → AllTaken b xs
AllTaken-mono a b [] still all = tt
AllTaken-mono a b (x ∷ xs) still all = (still x all.0, AllTaken-mono a b xs still all.1)

module _ (hhdm_offset frames : ℕ) (window : frames * 4096 + hhdm_offset ≤ u64_mod)
    (range : frames ≤ 2 ^ 40) where
  -- The tables on the way that are there are in frames which are taken and different; no entry on the
  -- way maps a large page.
  abbrev pub Sound : Machine → List ℕ → ℕ → List ℕ → Type 0
  Sound s above frame [] = Unit
  Sound s above frame (index ∷ indices) =
      let entry = s.word (slot (frame * 4096 + hhdm_offset) index) in
      is_present entry ≡ true
      → (frame_of entry < frames)
        × (taken s.allocator (frame_of entry) ≡ true)
        × Apart (frame_of entry) (frame ∷ above)
        × (is_large entry ≡ false)
        × Sound s (frame ∷ above) (frame_of entry) indices

  abbrev pub Same : (ℕ → ℕ) → (ℕ → ℕ) → List ℕ → Type 0
  Same word word' [] = Unit
  Same word word' (x ∷ xs) =
      ((a : ℕ) → InFrame hhdm_offset x a → word' a ≡ word a) × Same word word' xs

  -- What `descend` has reached.
  pub record Reached (s : Machine) (above : List ℕ) (frame : ℕ) (indices : List ℕ) (r : Machine × ℕ)
      : Type 0 where
    pub last : ℕ
    pub table : r.1 ≡ last * 4096 + hhdm_offset
    pub inside : last < frames
    pub apart : Apart last above
    pub walks :
        (word : ℕ → ℕ)
        → ((other a : ℕ) → other ≢ last → InFrame hhdm_offset other a → word a ≡ r.0.word a)
        → walk hhdm_offset word (frame * 4096 + hhdm_offset) indices ≡ some r.1
    pub keeps : Same s.word r.0.word above

  slot-inside :
      (frame index : ℕ)
      → frame < frames
      → index < 512
      → InFrame hhdm_offset frame (slot (frame * 4096 + hhdm_offset) index)
  slot-inside frame index inside small =
      rw (slot-InFrame hhdm_offset frames window range frame index inside small)
        (omega arith, omega arith)

  -- The walk through a present entry that leads to the table in `next`.
  through :
      (s : Machine) (above : List ℕ) (frame index next value : ℕ) (indices : List ℕ)
      (r : Machine × ℕ)
      → frame < frames
      → index < 512
      → next < frames
      → s.word (slot (frame * 4096 + hhdm_offset) index) ≡ value
      → is_present value ≡ true
      → is_large value ≡ false
      → frame_of value ≡ next
      → (reached : Reached s (frame ∷ above) next indices r) → (word : ℕ → ℕ)
      → ((other a : ℕ) → other ≢ reached.last → InFrame hhdm_offset other a → word a ≡ r.0.word a)
      → walk hhdm_offset word (frame * 4096 + hhdm_offset) (index ∷ indices) ≡ some r.1
  unfolding walk
  through s above frame index next value indices r inside small below e present table leads reached
        word agree =
      let at = slot-inside frame index inside small in
      let same : word (slot (frame * 4096 + hhdm_offset) index) ≡ value =
        agree frame _ (λ q. reached.apart.0 (sym q)) at ∙ reached.keeps.0 _ at ∙ e in
      let wrap : add64 (next * 4096) hhdm_offset ≡ next * 4096 + hhdm_offset = omega arith in
      rw (same, present, table, pde_addr_lem value, leads, wrap) (reached.walks word agree)

  Same-trans :
      (word word' word'' : ℕ → ℕ) (xs : List ℕ)
      → Same word word' xs
      → Same word' word'' xs
      → Same word word'' xs
  Same-trans word word' word'' [] one two = tt
  Same-trans word word' word'' (x ∷ xs) one two =
      (λ a inside. two.0 a inside ∙ one.0 a inside, Same-trans word word' word'' xs one.1 two.1)

  Same-refl : (word : ℕ → ℕ) (xs : List ℕ) → Same word word xs
  Same-refl word [] = tt
  Same-refl word (x ∷ xs) = (λ a inside. refl, Same-refl word xs)

  linked-Same :
      (s : Machine) (frame index new : ℕ) (inside : frame < frames) (small : index < 512)
      (xs : List ℕ)
      → Apart frame xs
      → Apart new xs
      → Same s.word (linked hhdm_offset frames window range frame index s inside small new) xs
  linked-Same s frame index new inside small [] one two = tt
  linked-Same s frame index new inside small (x ∷ xs) one two = (
    λ a at.
        linked-other hhdm_offset frames window range frame index s inside small new x a
          (λ q. one.0 (sym q)) (λ q. two.0 (sym q)) at,
    linked-Same s frame index new inside small xs one.1 two.1,
  )

  -- A new table has no present entry.
  fresh-Sound :
      (s : Machine) (above : List ℕ) (frame : ℕ) (indices : List ℕ)
      → frame < frames
      → AllSmall indices
      → ((a : ℕ) → InFrame hhdm_offset frame a → s.word a ≡ 0)
      → Sound s above frame indices
  fresh-Sound s above frame [] inside small cleared = tt
  fresh-Sound s above frame (index ∷ indices) inside small cleared = λ present. absurd (
      absent_zero (s.word (slot (frame * 4096 + hhdm_offset) index))
        (cleared _ (slot-inside frame index inside small.0)) present)
    where
      absent_zero : (value : ℕ) → value ≡ 0 → is_present value ≡ true → ⊥
      absent_zero value e present = cc (e, present)

  less_room : (k : ℕ) (a : Allocator) → HasFree frames (suc k) a → HasFree frames k a
  less_room k a h = record { bytes = h.bytes; size_is = h.size_is; room = omega (arith, h.room) }

  -- What is shown of `descend` on the indices.
  abbrev Descends : List ℕ → Type 0
  Descends indices =
      (s : Machine) (above : List ℕ) (frame : ℕ)
      → AllSmall indices
      → frame < frames
      → taken s.allocator frame ≡ true
      → AllTaken s.allocator above
      → Apart frame above
      → HasFree frames (length indices) s.allocator
      → Sound s above frame indices
      → Reached s above frame indices (descend hhdm_offset (frame * 4096 + hhdm_offset) indices s)

module _ (hhdm_offset frames : ℕ) (window : frames * 4096 + hhdm_offset ≤ u64_mod)
    (range : frames ≤ 2 ^ 40) (index : ℕ) (indices : List ℕ)
    (ih : Descends hhdm_offset frames window range indices) (s : Machine) (above : List ℕ)
    (frame : ℕ) (small : AllSmall (index ∷ indices)) (inside : frame < frames)
    (busy : taken s.allocator frame ≡ true) (all : AllTaken s.allocator above)
    (apart : Apart frame above) (room : HasFree frames (suc (length indices)) s.allocator) where
  there :
      is_present (s.word (slot (frame * 4096 + hhdm_offset) index)) ≡ true
      → (frame_of (s.word (slot (frame * 4096 + hhdm_offset) index)) < frames)
        × (taken s.allocator (frame_of (s.word (slot (frame * 4096 + hhdm_offset) index))) ≡ true)
        × Apart (frame_of (s.word (slot (frame * 4096 + hhdm_offset) index))) (frame ∷ above)
        × (is_large (s.word (slot (frame * 4096 + hhdm_offset) index)) ≡ false)
        × Sound hhdm_offset frames window range s
            (frame ∷ above)
            (frame_of (s.word (slot (frame * 4096 + hhdm_offset) index)))
            indices
      → Reached hhdm_offset frames window range s above frame
          (index ∷ indices)
          (descend hhdm_offset (frame * 4096 + hhdm_offset) (index ∷ indices) s)
  unfolding descend
  there present (below, busy', apart', table, sound') =
      let value = s.word (slot (frame * 4096 + hhdm_offset) index) in
      let step =
        next_table-present hhdm_offset frames window range frame index s inside small.0 present
          below in
      let reached =
        ih s (frame ∷ above) (frame_of value) small.1 below busy' (busy, all) apart'
          (less_room hhdm_offset frames window range (length indices) s.allocator room) sound' in
      rw step (record {
        last = reached.last;
        table = reached.table;
        inside = reached.inside;
        apart = reached.apart.1;
        walks =
            through hhdm_offset frames window range s above frame index (frame_of value) value
              indices _ inside small.0 below refl present table refl reached;
        keeps = reached.keeps.1;
      })

  made :
      is_present (s.word (slot (frame * 4096 + hhdm_offset) index)) ≡ false
      → Given frames (length indices) s.allocator
      → Reached hhdm_offset frames window range s above frame
          (index ∷ indices)
          (descend hhdm_offset (frame * 4096 + hhdm_offset) (index ∷ indices) s)
  unfolding descend
  made absent g =
      let step =
        next_table-absent hhdm_offset frames window range frame index s inside small.0 g.frame
          g.inside absent g.request in
      let s1 : Machine = record {
        allocator = lock_page s.allocator (g.frame * 4096);
        word = linked hhdm_offset frames window range frame index s inside small.0 g.frame;
      } in
      let apart' = free-Apart s.allocator g.frame (frame ∷ above) g.free (busy, all) in
      let reached =
        ih s1 (frame ∷ above) g.frame small.1 g.inside g.now_taken
          (g.still_taken frame busy, AllTaken-mono s.allocator s1.allocator above g.still_taken all)
          apart' g.left
          (fresh-Sound hhdm_offset frames window range s1 (frame ∷ above) g.frame indices g.inside
            small.1
            (λ a at.
              linked-cleared hhdm_offset frames window range frame index s inside small.0 g.frame a
                apart'.0 at)) in
      let same : frame_of (g.frame * 4096 + 7) ≡ g.frame = (let below = g.inside in omega arith) in
      rw step (record {
        last = reached.last;
        table = reached.table;
        inside = reached.inside;
        apart = reached.apart.1;
        walks =
            through hhdm_offset frames window range s1 above frame index g.frame
              (g.frame * 4096 + 7) indices _ inside small.0 g.inside
              (linked-entry hhdm_offset frames window range frame index s inside small.0 g.frame)
              (link-is_present g.frame) (link-is_large g.frame) same reached;
        keeps =
            Same-trans hhdm_offset frames window range s.word s1.word _ above
              (linked-Same hhdm_offset frames window range s frame index g.frame inside small.0
                above apart apart'.1)
              reached.keeps.1;
      })

module _ (hhdm_offset frames : ℕ) (window : frames * 4096 + hhdm_offset ≤ u64_mod)
    (range : frames ≤ 2 ^ 40) where
  pub descend-Reached : (indices : List ℕ) → Descends hhdm_offset frames window range indices
  unfolding descend walk
  descend-Reached [] s above frame small inside busy all apart room sound = record {
    last = frame;
    table = refl;
    inside = inside;
    apart = apart;
    walks = λ word agree. refl;
    keeps = Same-refl hhdm_offset frames window range s.word above;
  }
  descend-Reached (index ∷ indices) s above frame small inside busy all apart room sound =
      let ih = descend-Reached indices in
      elim (Bool-cases (is_present (s.word (slot (frame * 4096 + hhdm_offset) index)))) [
        | inl present ↦
            there hhdm_offset frames window range index indices ih s above frame small inside busy
              all apart room present (sound present)
        | inr absent ↦
            made hhdm_offset frames window range index indices ih s above frame small inside busy
              all apart room absent
              (request_page-Given frames (length indices) s.allocator (omega arith) room)
      ]

-- ===== src/Fs/Mounts/Resolve.antt =====
-- Which mount a path belongs to.
use systemcommander.Common.{
  ℕ, suc, ◌≤◌, ◌<◌, ◌≡◌, ◌⊎◌, inl, inr, refl, Bool, true, false, ◌&&◌, Option, none, some, [], ◌∷◌,
  ltb, leb, arith, if◌then◌else◌, Bool-cases,
}
use systemcommander.Fs.Path.{FsPath, depth, root_path, paths_equal, components_match}
use systemcommander.Fs.Path.Equal.{AreNames, IsPrefix, paths_equal_iff, components_match_iff}
use systemcommander.Fs.Mounts.{Mountpoint, MountTable, resolve_loop, resolve_mountpoint}

module _ {D H : Type 0} where
  -- No entry of the table is NULL, and all paths have proper names.
  abbrev pub IsTable : MountTable D H → Type 0
  IsTable [] = Unit
  IsTable (none ∷ table) = ⊥
  IsTable (some mp ∷ table) = AreNames mp.path.components × IsTable table

  -- The mount's path is a prefix of `path`.
  abbrev pub Covers : FsPath → Mountpoint D H → Type 0
  Covers path mp = (depth mp.path ≤ depth path) × IsPrefix mp.path.components path.components

  -- Every mount of the table that covers the path has depth `d` at most.
  abbrev pub NoDeeper : FsPath → ℕ → MountTable D H → Type 0
  NoDeeper path d [] = Unit
  NoDeeper path d (none ∷ table) = NoDeeper path d table
  NoDeeper path d (some mp ∷ table) = (Covers path mp → depth mp.path ≤ d) × NoDeeper path d table

  -- Every mount of the table that covers the path has a depth below `d`; for 0, there is none.
  abbrev pub AllBelow : FsPath → ℕ → MountTable D H → Type 0
  AllBelow path d [] = Unit
  AllBelow path d (none ∷ table) = AllBelow path d table
  AllBelow path d (some mp ∷ table) = (Covers path mp → depth mp.path < d) × AllBelow path d table

  abbrev pub In : Mountpoint D H → MountTable D H → Type 0
  In mp [] = ⊥
  In mp (entry ∷ table) = (entry ≡ some mp) ⊎ In mp table

  matches : FsPath → Mountpoint D H → Bool
  matches path mp =
      if paths_equal mp.path root_path
      then true
      else components_match mp.path.components path.components

  matches_iff :
      (path : FsPath) (mp : Mountpoint D H)
      → AreNames path.components
      → AreNames mp.path.components
      → depth mp.path ≤ depth path
      → ((matches path mp ≡ true) → Covers path mp) × (Covers path mp → matches path mp ≡ true)
  unfolding matches
  matches_iff path mp hp hm le = elim (Bool-cases (paths_equal mp.path root_path)) [
    | inl e ↦
        let q = (paths_equal_iff mp.path root_path hm tt).0 e in
        rw e (λ _. (le, rw q refl), λ _. refl)
    | inr e ↦ rw e (
      λ h. (le, (components_match_iff mp.path.components path.components hm hp le).0 h),
      λ c. (components_match_iff mp.path.components path.components hm hp le).1 c.1,
    )
  ]

  AllBelow-NoDeeper :
      (path : FsPath) (d e : ℕ) (table : MountTable D H)
      → d ≤ suc e
      → AllBelow path d table
      → NoDeeper path e table
  AllBelow-NoDeeper path d e [] le h = tt
  AllBelow-NoDeeper path d e (none ∷ table) le h = AllBelow-NoDeeper path d e table le h
  AllBelow-NoDeeper path d e (some mp ∷ table) le h =
      (λ c. omega (arith, h.0 c), AllBelow-NoDeeper path d e table le h.1)

  -- The mount `mp` of the table covers the path, is at least `h` deep, and none that covers it is
  -- deeper.
  pub record Deepest (path : FsPath) (h : ℕ) (table : MountTable D H)
      (out : Option (Option (Mountpoint D H))) : Type 0 where
    pub mp : Mountpoint D H
    pub result : out ≡ some (some mp)
    pub member : In mp table
    pub covers : Covers path mp
    pub floor : h ≤ depth mp.path
    pub deepest : NoDeeper path (depth mp.path) table

  -- Either a mount of this table, or the best of those before.
  abbrev Outcome :
      FsPath
      → Option (Mountpoint D H)
      → ℕ
      → MountTable D H
      → Option (Option (Mountpoint D H))
      → Type 0
  Outcome path best h table out =
      Deepest path h table out ⊎ ((out ≡ some best) × AllBelow path h table)

  -- An entry that is not taken: it does not cover the path, or lies below the best so far.
  passed :
      (path : FsPath) (best : Option (Mountpoint D H)) (h : ℕ) (mp : Mountpoint D H)
      (table : MountTable D H) (out : Option (Option (Mountpoint D H)))
      → (Covers path mp → depth mp.path < h)
      → Outcome path best h table out
      → Outcome path best h (some mp ∷ table) out
  passed path best h mp table out low (inl d) = inl (record {
    mp = d.mp;
    result = d.result;
    member = inr d.member;
    covers = d.covers;
    floor = d.floor;
    deepest = (λ c. omega (arith, low c, d.floor), d.deepest);
  })
  passed path best h mp table out low (inr e) = inr (e.0, (low, e.1))

  taken :
      (path : FsPath) (best : Option (Mountpoint D H)) (h : ℕ) (mp : Mountpoint D H)
      (table : MountTable D H) (out : Option (Option (Mountpoint D H)))
      → Covers path mp
      → h ≤ depth mp.path
      → Outcome path (some mp) (depth mp.path) table out
      → Outcome path best h (some mp ∷ table) out
  taken path best h mp table out c le (inl d) = inl (record {
    mp = d.mp;
    result = d.result;
    member = inr d.member;
    covers = d.covers;
    floor = omega (arith, d.floor);
    deepest = (λ _. d.floor, d.deepest);
  })
  taken path best h mp table out c le (inr e) = inl (record {
    mp = mp;
    result = e.0;
    member = inl refl;
    covers = c;
    floor = le;
    deepest = (λ _. omega arith, AllBelow-NoDeeper path _ _ table (omega arith) e.1);
  })

  settle :
      (path : FsPath) (best : Option (Mountpoint D H)) (h : ℕ) (mp : Mountpoint D H)
      (table : MountTable D H) (m : Bool) (yes_out no_out : Option (Option (Mountpoint D H)))
      → (m ≡ true → Covers path mp) × (Covers path mp → m ≡ true)
      → Outcome path (some mp) (depth mp.path) table yes_out
      → Outcome path best h table no_out
      → Outcome path best h
          (some mp ∷ table)
          (if m && leb h (depth mp.path) then yes_out else no_out)
  settle path best h mp table true yes_out no_out iff t n =
      elim (Bool-cases (leb h (depth mp.path))) [
        | inl e ↦ rw e (taken path best h mp table yes_out (iff.0 refl) (ground (arith, e)) t)
        | inr e ↦ rw e (passed path best h mp table no_out (λ _. ground (arith, e)) n)
      ]
  settle path best h mp table false yes_out no_out iff t n =
      passed path best h mp table no_out (λ c. cc (iff.1 c)) n

  resolve_loop-Outcome :
      (path : FsPath)
      → AreNames path.components
      → (table : MountTable D H) (best : Option (Mountpoint D H)) (h : ℕ) → IsTable table
      → Outcome path best h table (resolve_loop path best h table)
  unfolding resolve_loop matches
  resolve_loop-Outcome path names [] best h ok = inr (refl, tt)
  resolve_loop-Outcome path names (none ∷ table) best h ok = absurd ok
  resolve_loop-Outcome path names (some mp ∷ table) best h ok =
      elim (Bool-cases (ltb (depth path) (depth mp.path))) [
        | inl deep ↦ rw deep (
            passed path best h mp table _ (λ c. absurd (ground (arith, deep, c.0)))
              (resolve_loop-Outcome path names table best h ok.1))
        | inr fits ↦ rw fits (
            settle path best h mp table (matches path mp) _ _
              (matches_iff path mp names ok.0 (ground (arith, fits)))
              (resolve_loop-Outcome path names table (some mp) (depth mp.path) ok.1)
              (resolve_loop-Outcome path names table best h ok.1))
      ]

  -- In a table of mounts that has no `NULL` in front of them, `resolve_mountpoint` finds a mount whose path is a prefix of the given one, such that no mount
  -- with that property is deeper; it finds none exactly where there is no such mount.
  pub resolve_mountpoint-Deepest :
      (path : FsPath) (table : MountTable D H)
      → AreNames path.components
      → IsTable table
      → Deepest path 0 table (resolve_mountpoint table path)
        ⊎ ((resolve_mountpoint table path ≡ some none) × AllBelow path 0 table)
  unfolding resolve_mountpoint
  resolve_mountpoint-Deepest path table names ok = resolve_loop-Outcome path names table none 0 ok

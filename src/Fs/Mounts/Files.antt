-- ===== src/Fs/Mounts/Files.antt =====
-- What `fopen` hands to a file system.
use systemcommander.Common.{ℕ, ◌≡◌, ◌⊎◌, inl, inr, Option, none, some, [], ◌∷◌, ◌++◌, Bool-cases}
use systemcommander.Fs.Path.{FsPath, depth, root_path, paths_equal}
use systemcommander.Fs.Path.Equal.{AreNames, paths_equal_iff}
use systemcommander.Fs.Mounts.{Mountpoint, MountTable, strip_mountpoint, FsFile, FsHandlers, fopen}
use systemcommander.Fs.Mounts.Resolve.{
  IsTable, Covers, NoDeeper, AllBelow, In, resolve_mountpoint-Deepest,
}

module _ {D H : Type 0} where
  In-names :
      (mp : Mountpoint D H) (table : MountTable D H)
      → IsTable table
      → In mp table
      → AreNames mp.path.components
  In-names mp [] ok i = absurd i
  In-names mp (none ∷ table) ok i = absurd ok
  In-names mp (some m ∷ table) ok (inl e) = let q : m ≡ mp = cc in rw q at (ok.0)
  In-names mp (some m ∷ table) ok (inr i) = In-names mp table ok.1 i

  -- The mount's path and the stripped path make up the path.
  strip-Covers :
      (path : FsPath) (mp : Mountpoint D H)
      → AreNames mp.path.components
      → Covers path mp
      → mp.path.components ++ (strip_mountpoint path (some mp)).components ≡ path.components
  unfolding strip_mountpoint
  strip-Covers path mp names c = elim (Bool-cases (paths_equal mp.path root_path)) [
    | inl e ↦ rw e (rw ((paths_equal_iff mp.path root_path names tt).0 e))
    | inr e ↦ rw e c.1
  ]

module _ {S D H : Type 0} (handlers : FsHandlers S D H) where
  -- `fopen` calls the handler of `mp`, the deepest mount above the path, with the rest of the path.
  pub record OpensIn (path : FsPath) (flags : ℕ) (table : MountTable D H) (s : S)
      (out : Option (Option (FsFile D H) × S)) : Type 0 where
    pub mp : Mountpoint D H
    pub rest : FsPath
    pub result : out ≡ some (FsHandlers.open_file handlers mp.handler mp rest flags s)
    pub member : In mp table
    pub whole : mp.path.components ++ rest.components ≡ path.components
    pub deepest : NoDeeper path (depth mp.path) table

  -- On a table with no NULL, `fopen` opens the path in the deepest mount above it, or, where no mount
  -- is above it, returns NULL and changes nothing.
  pub fopen-OpensIn :
      (path : FsPath) (flags : ℕ) (table : MountTable D H) (s : S)
      → AreNames path.components
      → IsTable table
      → OpensIn path flags table s (fopen handlers path flags table s)
        ⊎ ((fopen handlers path flags table s ≡ some (none, s)) × AllBelow path 0 table)
  unfolding fopen
  fopen-OpensIn path flags table s names ok =
      elim (resolve_mountpoint-Deepest path table names ok) [
        | inl d ↦ inl (record {
          mp = d.mp;
          rest = strip_mountpoint path (some d.mp);
          result = rw (d.result, fopen);
          member = d.member;
          whole = strip-Covers path d.mp (In-names d.mp table ok d.member) d.covers;
          deepest = d.deepest;
        })
        | inr e ↦ inr (rw (e.0, fopen), e.1)
      ]

-- ===== src/Fs/Mounts/Table.antt =====
-- The mount table under `mount` and `unmount`.
use mathlib.Core.List.{append_assoc, append-nil}
use systemcommander.Common.{
  ℕ, ◌≤◌, ◌<◌, ◌≡◌, ◌≢◌, inl, inr, ap, sym, ◌∙◌, false, none, some, [], ◌∷◌, ◌++◌, length, arith,
  lt→ltb, Bool-cases,
}
use systemcommander.Fs.Path.{FsPath, paths_equal}
use systemcommander.Fs.Path.Equal.{AreNames, paths_equal_iff}
use systemcommander.Fs.Mounts.{
  Mountpoint, MountTable, fs_max_mounted_filesystems, unmount_err_not_mounted, FsHandlers, mount,
  unmount_loop, unmount,
}
use systemcommander.Fs.Mounts.Resolve.{IsTable}

module _ {D H : Type 0} where
  -- No mount of the table is at the path.
  abbrev pub NotMounted : FsPath → MountTable D H → Type 0
  NotMounted path [] = Unit
  NotMounted path (none ∷ table) = NotMounted path table
  NotMounted path (some mp ∷ table) = (mp.path.components ≢ path.components) × NotMounted path table

module _ {S D H : Type 0} (handlers : FsHandlers S D H) (path : FsPath)
    (names : AreNames path.components) where
  differs :
      (mp : Mountpoint D H)
      → AreNames mp.path.components
      → mp.path.components ≢ path.components
      → paths_equal mp.path path ≡ false
  differs mp n ne = elim (Bool-cases (paths_equal mp.path path)) [
    | inl e ↦ absurd (ne ((paths_equal_iff mp.path path n names).0 e))
    | inr e ↦ e
  ]

  -- The loop passes over the mounts that are elsewhere.
  unmount_loop-skip :
      (before front table : MountTable D H) (s : S)
      → IsTable front
      → NotMounted path front
      → unmount_loop handlers path before (front ++ table) s
        ≡ unmount_loop handlers path (before ++ front) table s
  unfolding unmount_loop
  unmount_loop-skip before [] table s ok away = rw (append-nil before)
  unmount_loop-skip before (none ∷ front) table s ok away = absurd ok
  unmount_loop-skip before (some mp ∷ front) table s ok away = rw (differs mp ok.0 away.0) (
      unmount_loop-skip (before ++ some mp ∷ []) front table s ok.1 away.1
      ∙ ap (λ t. unmount_loop handlers path t table s) (append_assoc before (some mp ∷ []) front))

  -- `unmount` calls the handler of the first mount at the path and takes that mount alone out of the
  -- table, whose order stays.
  pub unmount-removes :
      (front back : MountTable D H) (mp : Mountpoint D H) (s : S)
      → IsTable front
      → NotMounted path front
      → AreNames mp.path.components
      → mp.path.components ≡ path.components
      → unmount handlers path (front ++ some mp ∷ back) s
        ≡ some (
          (FsHandlers.unmount handlers mp.handler mp s).0,
          front ++ back,
          (FsHandlers.unmount handlers mp.handler mp s).1,
        )
  unfolding unmount unmount_loop
  unmount-removes front back mp s ok away n e =
      unmount_loop-skip [] front (some mp ∷ back) s ok away
      ∙ rw ((paths_equal_iff mp.path path n names).1 e)

  -- Where no mount is at the path, `unmount` returns the error and changes nothing.
  pub unmount-missing :
      (table : MountTable D H) (s : S)
      → IsTable table
      → NotMounted path table
      → unmount handlers path table s ≡ some (unmount_err_not_mounted, table, s)
  unfolding unmount unmount_loop
  unmount-missing table s ok away =
      ap (λ t. unmount_loop handlers path [] t s) (sym (append-nil table))
      ∙ unmount_loop-skip [] table [] s ok away

  -- A mount at a free path, into a table that is not full, is undone by `unmount`: the table is as
  -- before, and the state is what the two handlers make of it.
  pub unmount-mount :
      (partition : ℕ) (handler : H) (table : MountTable D H) (s : S) (mp : Mountpoint D H) (s' : S)
      → IsTable table
      → NotMounted path table
      → length table < fs_max_mounted_filesystems
      → FsHandlers.mount handlers handler partition path s ≡ (some mp, s')
      → mp.path.components ≡ path.components
      → (mount handlers partition path handler table s ≡ some (some mp, table ++ some mp ∷ [], s'))
        × (unmount handlers path (table ++ some mp ∷ []) s'
            ≡ some (
              (FsHandlers.unmount handlers mp.handler mp s').0,
              table,
              (FsHandlers.unmount handlers mp.handler mp s').1,
            ))
  unfolding mount
  unmount-mount partition handler table s mp s' ok away room e same = (
    rw (e, lt→ltb _ _ room),
    unmount-removes table [] mp s' ok away (rw (← same) at names) same
        ∙ ap
            (λ t. some (
              (FsHandlers.unmount handlers mp.handler mp s').0,
              t,
              (FsHandlers.unmount handlers mp.handler mp s').1,
            ))
            (append-nil table),
  )

  -- There is no check for a full table: the 257th mount is a write behind the array.
  pub mount-full :
      (partition : ℕ) (handler : H) (table : MountTable D H) (s : S)
      → fs_max_mounted_filesystems ≤ length table
      → mount handlers partition path handler table s ≡ none
  unfolding mount
  mount-full partition handler table s full = ground arith

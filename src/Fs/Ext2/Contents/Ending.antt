-- ===== src/Fs/Ext2/Contents/Ending.antt =====
-- The reading of inodes and of files' blocks ends, whatever the disk holds.
use systemcommander.Common.{ℕ, ◌+◌, inl, inr, List, [], ◌∷◌, length, leb, ◌==◌, Bool-cases, arith}
use systemcommander.Disk.Device.{BlockDevice}
use systemcommander.Fs.Outcome.{Outcome, done, fault, panicked, out_of_fuel, M, pass, load}
use systemcommander.Fs.Ext2.{read_new_block, ext2_get_inode, Ext2Mount, superblock_of, block_size}
use systemcommander.Fs.Ext2.Layout.{u32s, Ext2Inode}
use systemcommander.Fs.Ext2.Contents.{
  Copy, copy_block, copy_direct, walk_pointers, indirect, when_remaining, ext2_get_inode_data,
}

-- The call returns such a value, or it faults; it neither panics nor goes on for ever.
abbrev pub Ends : {S A : Type 0} → (A → Type 0) → Outcome (A × S) → Type 0
Ends P (done (a, s)) = P a
Ends P fault = Unit {0}
Ends P panicked = ⊥
Ends P out_of_fuel = ⊥

abbrev pub Any : {A : Type 0} → A → Type 0
Any a = Unit {0}

pub Ends-map :
    {S A : Type 0} (P Q : A → Type 0) (o : Outcome (A × S))
    → ((a : A) → P a → Q a)
    → Ends P o
    → Ends Q o
Ends-map P Q (done (a, t)) weaker ends = weaker a ends
Ends-map P Q fault weaker ends = tt
Ends-map P Q panicked weaker ends = ends
Ends-map P Q out_of_fuel weaker ends = ends

pub pass-Ends :
    {S A B : Type 0} (P : A → Type 0) (Q : B → Type 0) (o : Outcome (A × S)) (f : A → M S B)
    → Ends P o
    → ((a : A) (t : S) → P a → Ends Q (f a t))
    → Ends Q (pass o f)
unfolding pass
pass-Ends P Q (done (a, t)) f ends rest = rest a t ends
pass-Ends P Q fault f ends rest = tt
pass-Ends P Q panicked f ends rest = ends
pass-Ends P Q out_of_fuel f ends rest = ends

-- The same, where nothing is known of the value.
pub then-Ends :
    {S A B : Type 0} (Q : B → Type 0) (o : Outcome (A × S)) (f : A → M S B)
    → Ends Any o
    → ((a : A) (t : S) → Ends Q (f a t))
    → Ends Q (pass o f)
then-Ends Q o f ends rest = pass-Ends Any Q o f ends (λ a t _. rest a t)

pub load-Ends :
    {S : Type 0} (bytes : List ℕ) (offset n : ℕ) (s : S) → Ends Any (load bytes offset n s)
load-Ends bytes offset n s = elim (Bool-cases (leb (offset + n) (length bytes))) [
  | inl e ↦ rw e tt
  | inr e ↦ rw e tt
]

module _ {S : Type 0} (dev : BlockDevice S) (fresh : ℕ → S → List ℕ) (mountpoint : Ext2Mount) where
  read_new_block-Ends : (block : ℕ) (s : S) → Ends Any (read_new_block dev fresh mountpoint block s)
  unfolding read_new_block
  read_new_block-Ends block s = tt

  pub ext2_get_inode-Ends :
      (inode : ℕ) (s : S) → Ends Any (ext2_get_inode dev fresh mountpoint inode s)
  unfolding ext2_get_inode
  ext2_get_inode-Ends inode s =
      elim (Bool-cases ((superblock_of mountpoint).inodes_per_group == 0)) [
        | inl e ↦ rw e tt
        | inr e ↦ rw e (elim (Bool-cases (block_size (superblock_of mountpoint) == 0)) [
          | inl e' ↦ rw e' tt
          | inr e' ↦ rw e' (
              then-Ends _ _ _ (read_new_block-Ends _ s) (λ bgdt t.
                then-Ends _ _ _ (load-Ends bgdt _ 32 t) (λ descriptor t.
                  then-Ends _ _ _ (read_new_block-Ends _ t)
                    (λ buf t. then-Ends _ _ _ (load-Ends buf _ 124 t) (λ bytes t. tt)))))
        ])
      ]

  copy_block-Ends :
      (block : ℕ) (c : Copy) (s : S) → Ends Any (copy_block dev fresh mountpoint block c s)
  unfolding copy_block
  copy_block-Ends block c s = ground arith

  copy_direct-Ends :
      (pointers : List ℕ) (c : Copy) (s : S)
      → Ends Any (copy_direct dev fresh mountpoint pointers c s)
  unfolding copy_direct
  copy_direct-Ends [] c s = tt
  copy_direct-Ends (block ∷ pointers) c s = elim (Bool-cases (block == 0)) [
    | inl e ↦ rw e tt
    | inr e ↦
        rw e (then-Ends _ _ _ (copy_block-Ends block c s) (λ c t. copy_direct-Ends pointers c t))
  ]

  module _ (visit : ℕ → Copy → M S Copy)
      (visits : (block : ℕ) (c : Copy) (s : S) → Ends Any (visit block c s)) where
    walk-Ends :
        (pointers : List ℕ) (c : Copy) (s : S)
        → Ends Any (walk_pointers dev fresh mountpoint visit pointers c s)
    unfolding walk_pointers
    walk-Ends [] c s = elim (Bool-cases (c.remaining_blocks == 0)) [
      | inl e ↦ rw e tt
      | inr e ↦ rw e tt
    ]
    walk-Ends (block ∷ pointers) c s = elim (Bool-cases (c.remaining_blocks == 0)) [
      | inl e ↦ rw e tt
      | inr e ↦ elim (Bool-cases (block == 0)) [
        | inl e' ↦ rw (e, e') tt
        | inr e' ↦ rw (e, e') (then-Ends _ _ _ (visits block c s) (λ c t. walk-Ends pointers c t))
      ]
    ]

    indirect-Ends :
        (block : ℕ) (c : Copy) (s : S) → Ends Any (indirect dev fresh mountpoint visit block c s)
    unfolding indirect
    indirect-Ends block c s =
        then-Ends _ _ _ (read_new_block-Ends block s) (λ content t. walk-Ends (u32s content) c t)

    when_remaining-Ends :
        (block : ℕ) (c : Copy) (s : S)
        → Ends Any (when_remaining dev fresh mountpoint visit block c s)
    unfolding when_remaining
    when_remaining-Ends block c s = elim (Bool-cases (c.remaining_blocks == 0)) [
      | inl e ↦ rw e tt
      | inr e ↦ rw e (visits block c s)
    ]

  pub ext2_get_inode_data-Ends :
      (inode : Ext2Inode) (buffer : List ℕ) (s : S)
      → Ends Any (ext2_get_inode_data dev fresh mountpoint inode buffer s)
  unfolding ext2_get_inode_data
  ext2_get_inode_data-Ends inode buffer s =
      let singly = indirect-Ends _ copy_block-Ends in
      let doubly = indirect-Ends _ singly in
      elim (Bool-cases (block_size (superblock_of mountpoint) == 0)) [
        | inl e ↦ rw e tt
        | inr e ↦ rw e (
            then-Ends _ _ _ (copy_direct-Ends inode.direct_block_pointer _ s) (λ c t.
              then-Ends _ _ _ (when_remaining-Ends _ singly _ c t) (λ c t.
                then-Ends _ _ _ (when_remaining-Ends _ doubly _ c t) (λ c t.
                  then-Ends _ _ _ (when_remaining-Ends _ (indirect-Ends _ doubly) _ c t)
                    (λ c t. tt)))))
      ]

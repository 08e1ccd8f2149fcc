-- ===== src/Disk/Gpt/Table.antt =====
-- Partitions in use, and the table of those that are registered.
use mathlib.Core.List.{append-nil, append_assoc}
use systemcommander.Common.{
  sym, ◌∙◌, take, ℕ, ◌≤◌, ◌≡◌, ◌↔◌, inl, inr, refl, true, List, [], ◌∷◌, ◌++◌, length,
  length-append, leb, arith, ◌==◌, Bool-cases,
}
use systemcommander.Libc.Compare.{strncmp}
use systemcommander.Libc.Compare.Equality.{IsText, strncmp-zero_iff}
use systemcommander.Fs.Path.Equal.{is_zero_iff}
use systemcommander.Fs.Path.{is_zero}
use systemcommander.Disk.Gpt.{
  GptPartitionEntry, GptPartition, c_string, gpt_is_unused_partition, max_partitions,
  gpt_register_partition,
}

-- The first byte of an array.
abbrev pub first_byte : List ℕ → ℕ
first_byte [] = 0
first_byte (c ∷ bytes) = c

c_string-IsText : (bytes : List ℕ) → IsText (c_string bytes)
unfolding c_string
c_string-IsText [] = tt
c_string-IsText (c ∷ bytes) = elim (Bool-cases (c == 0)) [
  | inl e ↦ rw e tt
  | inr e ↦ rw e (ground (arith, e), c_string-IsText bytes)
]

empty_head : (bytes : List ℕ) → take 16 (c_string bytes) ≡ [] → first_byte bytes ≡ 0
unfolding c_string
empty_head [] h = refl
empty_head (c ∷ bytes) h = elim (Bool-cases (c == 0)) [
  | inl e ↦ ground (arith, e)
  | inr e ↦ cc (rw e at h)
]

head_empty : (bytes : List ℕ) → first_byte bytes ≡ 0 → take 16 (c_string bytes) ≡ []
unfolding c_string
head_empty [] h = refl
head_empty (c ∷ bytes) h = let e : (c == 0) ≡ true = ground arith in rw e

-- An entry counts as unused exactly if the first byte of its type is 0, whatever the other fifteen
-- are.
pub gpt_is_unused_partition_iff :
    (partition : GptPartitionEntry)
    → (gpt_is_unused_partition partition ≡ true) ↔ (first_byte partition.type_guid ≡ 0)
unfolding gpt_is_unused_partition c_string
gpt_is_unused_partition_iff partition = go partition.type_guid
  where
    go :
        (bytes : List ℕ)
        → (is_zero (strncmp (c_string bytes) [] 16) ≡ true) ↔ (first_byte bytes ≡ 0)
    go bytes = (
      λ h. empty_head bytes (
          (strncmp-zero_iff (c_string bytes) [] 16 (c_string-IsText bytes) tt).0
            ((is_zero_iff _).0 h)),
      λ h. (is_zero_iff _).1 (
          (strncmp-zero_iff (c_string bytes) [] 16 (c_string-IsText bytes) tt).1
            (head_empty bytes h)),
    )

-- Registering partitions one after the other.
pub register_all : ℕ → List GptPartitionEntry → List GptPartition → List GptPartition
register_all ahci [] partitions = partitions
register_all ahci (e ∷ entries) partitions =
    register_all ahci entries (gpt_register_partition ahci e partitions)

-- The table never holds more than its 255 entries, and those in it stay where they are.
pub register_all-bounded :
    (ahci : ℕ) (entries : List GptPartitionEntry) (partitions : List GptPartition)
    → length partitions ≤ max_partitions
    → (added : List GptPartition) × (register_all ahci entries partitions ≡ partitions ++ added)
      × (length (register_all ahci entries partitions) ≤ max_partitions)
unfolding register_all gpt_register_partition
register_all-bounded ahci [] partitions h = ([], sym (append-nil partitions), h)
register_all-bounded ahci (e ∷ entries) partitions h =
    elim (Bool-cases (leb max_partitions (length partitions))) [
      | inl full ↦ rw full (register_all-bounded ahci entries partitions h)
      | inr room ↦ rw room (
          extend (
            register_all-bounded ahci entries (partitions ++ record { ahci = ahci; entry = e } ∷ [])
              (ground
                (arith, room, length-append partitions (record { ahci = ahci; entry = e } ∷ [])))))
    ]
  where
    extend :
        (added : List GptPartition) × (register_all ahci entries
              (partitions ++ record { ahci = ahci; entry = e } ∷ [])
            ≡ (partitions ++ record { ahci = ahci; entry = e } ∷ []) ++ added)
          × (length
                (register_all ahci entries (partitions ++ record { ahci = ahci; entry = e } ∷ []))
              ≤ max_partitions)
        → (added : List GptPartition) × (register_all ahci entries
              (partitions ++ record { ahci = ahci; entry = e } ∷ [])
            ≡ partitions ++ added)
          × (length
                (register_all ahci entries (partitions ++ record { ahci = ahci; entry = e } ∷ []))
              ≤ max_partitions)
    extend r = (
      record { ahci = ahci; entry = e } ∷ r.0,
      r.1 ∙ append_assoc partitions (record { ahci = ahci; entry = e } ∷ []) r.0,
      r.2,
    )

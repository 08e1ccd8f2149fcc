-- ===== src/Pci/Search.antt =====
-- Which table `acpi_find_table` returns.
use systemcommander.Common.{
  ℕ, zero, suc, ◌+◌, ◌-◌, ◌*◌, ◌/◌, ◌%◌, ◌^◌, ◌<◌, ◌≤◌, ◌≡◌, ◌⊎◌, inl, inr, refl, true, false, ◌&&◌,
  arith, ltb, ◌==◌, Bool-cases, ==_iff, if◌then◌else◌, null,
}
use systemcommander.Pci.{signature_matches, find_loop, acpi_find_table}

-- The four rounds compare the same two bytes, so they agree when these do.
signature_matches_lem :
    (table_byte byte : ℕ)
    → signature_matches 4 table_byte byte ≡ (table_byte == byte && ltb byte 0x80)
unfolding signature_matches
signature_matches_lem table_byte byte = ground arith

-- The bytes are equal for C: a `char` of the signature from 0x80 on is negative, and equals no byte.
abbrev pub Same : (table_byte byte : ℕ) → Type 0
Same table_byte byte = (table_byte ≡ byte) × (byte < 0x80)

module _ (entry : ℕ → ℕ) (byte_of : ℕ → ℕ → ℕ) (signature : ℕ → ℕ) where
  -- Table `index` is the first from `i` on whose byte of its own index is the signature's.
  pub record FirstMatch (i n table : ℕ) : Type 0 where
    pub index : ℕ
    pub from : i ≤ index
    pub below : index < n
    pub agrees : Same (byte_of (entry index) index) (signature index)
    pub lowest : (k : ℕ) → i ≤ k → k < index → Same (byte_of (entry k) k) (signature k) → ⊥
    pub result : table ≡ entry index

  pub record NoMatch (i n table : ℕ) : Type 0 where
    pub all_differ : (k : ℕ) → i ≤ k → k < n → Same (byte_of (entry k) k) (signature k) → ⊥
    pub result : table ≡ null

  find_loop_lem :
      (rounds i n : ℕ)
      → i + rounds ≡ n
      → FirstMatch i n (find_loop entry byte_of signature i rounds).1
        ⊎ NoMatch i n (find_loop entry byte_of signature i rounds).1
  unfolding find_loop
  find_loop_lem zero i n e =
      inr (record { all_differ = λ k a b. absurd (omega arith); result = refl })
  find_loop_lem (suc rounds) i n e =
      elim (Bool-cases (byte_of (entry i) i == signature i && ltb (signature i) 0x80)) [
        | inl same ↦
            rw (signature_matches_lem (byte_of (entry i) i) (signature i), same)
              (inl (record {
                index = i;
                from = omega arith;
                below = omega arith;
                agrees = (ground (arith, same), ground (arith, same));
                lowest = λ k a b. absurd (omega arith);
                result = refl;
              }))
        | inr other ↦
            rw (signature_matches_lem (byte_of (entry i) i) (signature i), other)
              (later other (find_loop_lem rounds (i + 1) n (omega arith)))
      ]
    where
      here :
          (k : ℕ)
          → (byte_of (entry i) i == signature i && ltb (signature i) 0x80) ≡ false
          → i ≤ k
          → (i + 1 ≤ k → Same (byte_of (entry k) k) (signature k) → ⊥)
          → Same (byte_of (entry k) k) (signature k)
          → ⊥
      here k other from rest = elim (Bool-cases (i == k)) [
        | inl at ↦
            let at' : i ≡ k = (==_iff i k).0 at in
            rw (← at') (λ same. ground (arith, other, same.0, same.1))
        | inr past ↦ rest (ground (arith, past))
      ]

      later :
          (byte_of (entry i) i == signature i && ltb (signature i) 0x80) ≡ false
          → FirstMatch (i + 1) n (find_loop entry byte_of signature (i + 1) rounds).1
            ⊎ NoMatch (i + 1) n (find_loop entry byte_of signature (i + 1) rounds).1
          → FirstMatch i n (find_loop entry byte_of signature (i + 1) rounds).1
            ⊎ NoMatch i n (find_loop entry byte_of signature (i + 1) rounds).1
      later other (inl f) = inl (record {
        index = f.index;
        from = omega (arith, f.from);
        below = f.below;
        agrees = f.agrees;
        lowest = λ k a b. here k other a (λ q. f.lowest k q b);
        result = f.result;
      })
      later other (inr x) = inr (record {
        all_differ = λ k a b. here k other a (λ q. x.all_differ k q b);
        result = x.result;
      })

  -- For a header of at least 36 bytes, with `n` entries of 8 bytes behind it: `acpi_find_table` returns
  -- the table of the first entry `k` whose byte `k` is byte `k` of the signature and is below 0x80, the
  -- other three bytes of a signature playing no part, or `NULL` where there is no such entry.
  pub acpi_find_table_lem :
      (n rest : ℕ)
      → rest < 8
      → 36 + n * 8 + rest < 2 ^ 32
      → FirstMatch 0 n (acpi_find_table (36 + n * 8 + rest) entry byte_of signature).1
        ⊎ NoMatch 0 n (acpi_find_table (36 + n * 8 + rest) entry byte_of signature).1
  unfolding acpi_find_table
  acpi_find_table_lem n rest r fits = rw rounds (find_loop_lem n 0 n (omega arith))
    where
      rounds :
          (if ltb ((36 + n * 8 + rest + (2 ^ 64 - 36)) % 2 ^ 64 / 8 % 2 ^ 32) (2 ^ 31)
            then (36 + n * 8 + rest + (2 ^ 64 - 36)) % 2 ^ 64 / 8 % 2 ^ 32
            else 0)
          ≡ n
      rounds =
          let q : (36 + n * 8 + rest + (2 ^ 64 - 36)) % 2 ^ 64 / 8 % 2 ^ 32 ≡ n = omega arith in
          let l : ltb n (2 ^ 31) ≡ true = ground arith in rw (q, l) refl

-- ===== src/Fs/Ext2/Directory/Search.antt =====
-- A directory as a list of entries, and the search in it.
use systemcommander.Common.{
  ℕ, zero, suc, ◌+◌, ◌-◌, ◌≤◌, ◌<◌, ◌≡◌, ◌≢◌, ◌⊎◌, inl, inr, refl, sym, ap, ◌∙◌, Bool, true, false,
  ◌&&◌, Option, none, some, List, [], ◌∷◌, ◌++◌, length, drop, slice, take-append-drop, ltb, ◌==◌,
  if◌then◌else◌, Bool-cases, arith, mul32,
}
use systemcommander.Disk.Device.{BlockDevice}
use systemcommander.Fs.Outcome.{done, out_of_fuel, M, pass-eq, pass-congr, ◌>>=◌, return, load_lem}
use systemcommander.Fs.Ext2.{Ext2Mount, ext2_get_inode}
use systemcommander.Fs.Bytes.{le, field}
use systemcommander.Fs.Ext2.Layout.{Ext2Inode}
use systemcommander.Fs.Ext2.Contents.{ext2_get_inode_data}
use systemcommander.Fs.Ext2.Directory.{
  Ext2File, name_matches, is_directory, search_loop, ext2_search_dir,
}

-- An entry of a directory, with the bytes that it takes there.
pub record Entry : Type 0 where
  pub number : ℕ
  pub name : List ℕ
  pub bytes : List ℕ

abbrev pub IsName : List ℕ → Type 0
IsName [] = Unit {0}
IsName (c ∷ name) = (c ≢ 0) × IsName name

-- The directory's bytes hold the entry at `i`.
pub record HasEntry (content : List ℕ) (limit i : ℕ) (e : Entry) : Type 0 where
  pub begins : i < limit
  pub header_inside : i + 8 ≤ length content
  pub number_lem : le (slice content i 4) ≡ e.number
  pub used : e.number ≢ 0
  pub size_lem : field (slice content i 8) 4 2 ≡ length e.bytes
  pub advances : 0 < length e.bytes
  pub bytes_lem : slice content i (length e.bytes) ≡ e.bytes
  pub bytes_inside : i + length e.bytes ≤ length content
  pub name_length : field (slice content i 8) 6 1 ≡ length e.name
  pub name_lem : slice content (i + 8) (length e.name) ≡ e.name
  pub name_text : IsName e.name

-- From `i` on the directory holds these entries, up to its end or to an unused one.
abbrev pub Lists : (content : List ℕ) (limit : ℕ) → List Entry → ℕ → Type 0
Lists content limit [] i =
    (limit ≤ i) ⊎ ((i < limit) × (i + 4 ≤ length content) × (le (slice content i 4) ≡ 0))
Lists content limit (e ∷ entries) i =
    HasEntry content limit i e × Lists content limit entries (i + length e.bytes)

-- The first text begins the second.
unfoldable pub is_prefix : List ℕ → List ℕ → Bool
is_prefix [] filename = true
is_prefix (c ∷ name) [] = false
is_prefix (c ∷ name) (d ∷ filename) = c == d && is_prefix name filename

-- The first entry whose name begins the file's name.
unfoldable pub first_match : List Entry → (filename : List ℕ) → Option Entry
first_match [] filename = none
first_match (e ∷ entries) filename =
    let rest = first_match entries filename in
    if is_prefix (Entry.name e) filename then some e else rest

name_matches_lem :
    {S : Type 0} (name rest filename : List ℕ) (s : S)
    → IsName name
    → name_matches (name ++ rest) filename (length name) s ≡ done (is_prefix name filename, s)
unfolding name_matches is_prefix
name_matches_lem [] rest filename s text = refl
name_matches_lem (c ∷ name) rest [] s (nonzero, text) = ground (arith, nonzero)
name_matches_lem (c ∷ name) rest (d ∷ filename) s (nonzero, text) =
    let zero_c : (c == 0) ≡ false = ground (arith, nonzero) in
    elim (Bool-cases (c == d)) [
      | inl e ↦ rw (e, zero_c) (name_matches_lem name rest filename s text)
      | inr e ↦ rw e refl
    ]

-- The comparison of an entry's name with the file's.
HasEntry-matches :
    {S : Type 0} (content : List ℕ) (limit i : ℕ) (e : Entry) (filename : List ℕ) (s : S)
    → HasEntry content limit i e
    → name_matches (drop (i + 8) content) filename (field (slice content i 8) 6 1) s
      ≡ done (is_prefix e.name filename, s)
HasEntry-matches content limit i e filename s has =
    let behind = drop (length e.name) (drop (i + 8) content) in
    let split : drop (i + 8) content ≡ e.name ++ behind =
      sym (take-append-drop (length e.name) (drop (i + 8) content))
      ∙ ap (λ l. l ++ behind) has.name_lem in
    rw (has.name_length, split) (name_matches_lem e.name behind filename s has.name_text)

module _ {S : Type 0} (dev : BlockDevice S) (fresh : ℕ → S → List ℕ) (mountpoint : Ext2Mount)
    (filename : List ℕ) where
  -- What a search has for the entry that it finds.
  abbrev pub open_entry : Option Entry → M S (Option Ext2File)
  open_entry none s = done (none, s)
  open_entry (some e) s =
      (ext2_get_inode dev fresh mountpoint (Entry.number e) >>= λ inode.
      return (some (record { inode = inode; dirent = some (Entry.bytes e) })))
        s

  search_loop_lem :
      (rounds : ℕ) (content : List ℕ) (limit i : ℕ) (entries : List Entry) (s : S)
      → Lists content limit entries i
      → limit - i < rounds
      → search_loop dev fresh mountpoint rounds content filename limit i s
        ≡ open_entry (first_match entries filename) s
  unfolding search_loop first_match
  search_loop_lem zero content limit i entries s lists enough = absurd (omega arith)
  search_loop_lem (suc rounds) content limit i [] s (inl ends) enough =
      let e : ltb i limit ≡ false = ground arith in rw e refl
  search_loop_lem (suc rounds) content limit i [] s (inr (begins, inside, unused)) enough =
      let e : ltb i limit ≡ true = ground arith in
      rw e (pass-eq _ (load_lem content i 4 s inside) (rw unused refl))
  search_loop_lem (suc rounds) content limit i (e ∷ entries) s (has, lists) enough =
      let begins : ltb i limit ≡ true = ground (arith, has.begins) in
      let used : (e.number == 0) ≡ false = ground (arith, has.used) in
      rw begins (
        pass-eq _ (load_lem content i 4 s (omega (arith, has.header_inside))) (
          rw (has.number_lem, used)
            (pass-eq _ (load_lem content i 8 s has.header_inside) (
              pass-eq _ (HasEntry-matches content limit i e filename s has)
                (elim (Bool-cases (is_prefix e.name filename)) [
                  | inl found ↦
                      rw (found, has.number_lem, has.size_lem)
                        (pass-congr _ _ _ λ inode t.
                          pass-eq _ (load_lem content i (length e.bytes) t has.bytes_inside)
                            (rw has.bytes_lem refl))
                  | inr other ↦
                      rw (other, has.size_lem)
                        (search_loop_lem rounds content limit (i + length e.bytes) entries s lists
                          (omega (arith, has.begins, has.advances)))
                ])))))

  -- In a directory whose bytes hold a list of entries the search ends, and gives the inode and the bytes
  -- of the first entry whose name begins the name that is looked for, or nothing if there is none.
  pub ext2_search_dir-First :
      (inode : Ext2Inode) (content : List ℕ) (number : ℕ) (entries : List Entry) (s : S)
      → is_directory inode ≡ true
      → ext2_get_inode_data dev fresh mountpoint inode (fresh (mul32 inode.sectors_used 512) s) s
        ≡ done ((content, number), s)
      → Lists content (mul32 inode.sectors_used 512) entries 0
      → ext2_search_dir dev fresh mountpoint inode filename s
        ≡ open_entry (first_match entries filename) s
  unfolding ext2_search_dir
  ext2_search_dir-First inode content number entries s directory reads lists = rw directory (
      pass-eq _ reads (
        search_loop_lem (mul32 inode.sectors_used 512 + 1) content (mul32 inode.sectors_used 512) 0
          entries s lists (omega arith)))

  -- Where the search comes to an entry of another name whose size is 0, it goes on for ever.
  pub search_loop-endless :
      (rounds : ℕ) (content : List ℕ) (limit i : ℕ) (s : S)
      → i < limit
      → i + 8 ≤ length content
      → le (slice content i 4) ≢ 0
      → name_matches (drop (i + 8) content) filename (field (slice content i 8) 6 1) s
        ≡ done (false, s)
      → field (slice content i 8) 4 2 ≡ 0
      → search_loop dev fresh mountpoint rounds content filename limit i s ≡ out_of_fuel
  unfolding search_loop
  search_loop-endless zero content limit i s begins inside used other stuck = refl
  search_loop-endless (suc rounds) content limit i s begins inside used other stuck =
      let in_range : ltb i limit ≡ true = ground arith in
      let used' : (le (slice content i 4) == 0) ≡ false = ground (arith, used) in
      let same : i + 0 ≡ i = omega arith in
      rw in_range (
        pass-eq _ (load_lem content i 4 s (omega arith)) (
          rw used' (
            pass-eq _ (load_lem content i 8 s inside) (
              pass-eq _ other (
                rw (stuck, same)
                  (search_loop-endless rounds content limit i s begins inside used other stuck))))))

-- ===== src/Fs/Fat/Directory/Search.antt =====
-- The search in a directory of files with short names.
use systemcommander.Common.{
  ℕ, zero, suc, ◌+◌, ◌≤◌, ◌<◌, ◌≡◌, ◌≢◌, refl, inl, inr, Bool, true, false, ◌&&◌, Option, none,
  some, List, [], ◌∷◌, ◌++◌, length, drop, slice, bit_and, ◌==◌, if◌then◌else◌, Bool-cases, arith,
}
use systemcommander.Libc.Compare.{strncmp, first}
use systemcommander.Libc.Compare.Equality.{IsText}
use systemcommander.Fs.Path.{is_zero}
use systemcommander.Fs.Outcome.{done, pass-eq, load_lem}
use systemcommander.Fs.Bytes.{field}
use systemcommander.Fs.Fat.{FatFile}
use systemcommander.Fs.Fat.Directory.{
  decode_fat_file, entry_name, no_lfn, search_entries, fat_file_attrib_volume_id,
  fat_file_attrib_long_filename,
}
use systemcommander.Fs.Fat.Directory.Names.{AreLetters, entry_name-letters}

-- The same text.
unfoldable pub same_text : List ℕ → List ℕ → Bool
same_text [] [] = true
same_text [] (d ∷ t) = false
same_text (c ∷ s) [] = false
same_text (c ∷ s) (d ∷ t) = c == d && same_text s t

strncmp-same_text :
    (n : ℕ) (name filename : List ℕ)
    → AreLetters name
    → IsText filename
    → length name < n
    → is_zero (strncmp name filename n) ≡ same_text name filename
unfolding strncmp same_text
strncmp-same_text zero name filename letters text short = absurd (omega arith)
strncmp-same_text (suc n) [] [] letters text short = refl
strncmp-same_text (suc n) [] (d ∷ t) letters (nonzero, text) short = ground (arith, nonzero)
strncmp-same_text (suc n) (c ∷ s) [] (nonzero, blank, letters) text short = ground (arith, nonzero)
strncmp-same_text (suc n) (c ∷ s) (d ∷ t) (nonzero, blank, letters) (_, text) short =
    elim (Bool-cases (c == d)) [
      | inl e ↦ rw e (strncmp-same_text n s t letters text (omega arith))
      | inr e ↦ rw e (ground (arith, e))
    ]

pub record Entry : Type 0 where
  pub name : List ℕ
  pub bytes : List ℕ

-- The content holds such an entry at `i`: it is in use, has no part of a long name, is not the volume's
-- label, and its name is up to twelve letters with blanks behind.
pub record HasFile (content : List ℕ) (i : ℕ) (e : Entry) : Type 0 where
  pub inside : i + 32 ≤ length content
  pub bytes_lem : slice content i 32 ≡ e.bytes
  pub more : first e.bytes ≢ 0
  pub used : first e.bytes ≢ 0xe5
  pub short : field e.bytes 11 1 ≢ fat_file_attrib_long_filename
  pub no_label : bit_and (field e.bytes 11 1) fat_file_attrib_volume_id ≡ 0
  pub rest : List ℕ
  pub named : drop i content ≡ e.name ++ b' ' ∷ b' ' ∷ rest
  pub letters : AreLetters e.name
  pub name_short : length e.name < 13
  pub no_extension : first (drop 8 (e.name ++ b' ' ∷ b' ' ∷ rest)) ≡ b' '

HasFile-name :
    {S : Type 0} (content : List ℕ) (i : ℕ) (e : Entry) (s : S)
    → HasFile content i e
    → entry_name (drop i content) no_lfn s ≡ done ((e.name, 13), s)
HasFile-name content i e s has =
    rw has.named (entry_name-letters e.name has.rest s has.letters has.name_short has.no_extension)

-- From `i` on the content holds these entries, up to one that begins with 0.
abbrev pub Lists : (content : List ℕ) → List Entry → ℕ → Type 0
Lists content [] i = (i + 32 ≤ length content) × (first (slice content i 32) ≡ 0)
Lists content (e ∷ entries) i = HasFile content i e × Lists content entries (i + 32)

-- The first entry of a name.
unfoldable pub first_named : List Entry → (filename : List ℕ) → Option FatFile
first_named [] filename = none
first_named (e ∷ entries) filename =
    let rest = first_named entries filename in
    if same_text (Entry.name e) filename then some (decode_fat_file (Entry.bytes e)) else rest

module _ {S : Type 0} (filename : List ℕ) (text : IsText filename) (s : S) where
  -- In a cluster of entries as in `HasFile`, in use, with a short name that has no extension, and no
  -- label, up to one that begins with 0: the search gives the first entry whose name is the one that
  -- is looked for, or none if there is no such entry.
  pub search_entries-First :
      (rounds : ℕ) (content : List ℕ) (i : ℕ) (entries : List Entry)
      → Lists content entries i
      → length entries < rounds
      → search_entries rounds content i no_lfn filename s ≡ done (first_named entries filename, s)
  unfolding search_entries first_named
  search_entries-First zero content i entries lists enough = absurd (omega arith)
  search_entries-First (suc rounds) content i [] (inside, last) enough =
      pass-eq _ (load_lem content i 32 s inside) (rw last refl)
  search_entries-First (suc rounds) content i (e ∷ entries) (has, lists) enough =
      let more : (first e.bytes == 0) ≡ false = ground (arith, has.more) in
      let used : (first e.bytes == 0xe5) ≡ false = ground (arith, has.used) in
      let short : (field e.bytes 11 1 == fat_file_attrib_long_filename) ≡ false =
        ground (arith, has.short) in
      let no_label : (bit_and (field e.bytes 11 1) fat_file_attrib_volume_id == 0) ≡ true =
        ground (arith, has.no_label) in
      pass-eq _ (load_lem content i 32 s has.inside) (
        rw (has.bytes_lem, more, used, short)
          (pass-eq _ (HasFile-name content i e s has) (
            rw (no_label, strncmp-same_text 13 e.name filename has.letters text has.name_short)
              (elim (Bool-cases (same_text e.name filename)) [
                | inl found ↦ rw found refl
                | inr other ↦
                    rw other
                      (search_entries-First rounds content (i + 32) entries lists (omega arith))
              ]))))

-- ===== src/Fs/Fat/Directory/Names.antt =====
-- Names of entries without an extension.
use systemcommander.Common.{
  ℕ, zero, suc, ◌<◌, ◌≡◌, ◌≢◌, refl, ap, false, List, [], ◌∷◌, ◌++◌, length, drop, ◌==◌, arith,
}
use systemcommander.Disk.Gpt.{c_string}
use systemcommander.Libc.Compare.{first}
use systemcommander.Fs.Outcome.{done, pass-eq}
use systemcommander.Fs.Fat.Directory.{short_chars, short_name, entry_name, no_lfn}

-- Characters other than NUL and the blank.
abbrev pub AreLetters : List ℕ → Type 0
AreLetters [] = Unit {0}
AreLetters (c ∷ name) = (c ≢ 0) × (c ≢ b' ') × AreLetters name

c_string-short_chars :
    (rounds : ℕ) (name rest : List ℕ)
    → AreLetters name
    → length name < rounds
    → c_string (short_chars rounds (name ++ b' ' ∷ b' ' ∷ rest)) ≡ name
unfolding c_string short_chars
c_string-short_chars zero name rest letters enough = absurd (omega arith)
c_string-short_chars (suc rounds) [] rest letters enough = refl
c_string-short_chars (suc rounds) (c ∷ name) rest (nonzero, letter, letters) enough =
    let kept : (c == b' ') ≡ false = ground (arith, letter) in
    let some : (c == 0) ≡ false = ground (arith, nonzero) in
    rw (kept, some) (ap (λ l. c ∷ l) (c_string-short_chars rounds name rest letters (omega arith)))

-- An entry whose bytes begin with up to twelve letters and two blanks, and whose extension is blank, has
-- these letters as its name.
pub short_name-letters :
    {S : Type 0} (name rest : List ℕ) (s : S)
    → AreLetters name
    → length name < 13
    → first (drop 8 (name ++ b' ' ∷ b' ' ∷ rest)) ≡ b' '
    → short_name (name ++ b' ' ∷ b' ' ∷ rest) s ≡ done (name, s)
unfolding short_name
short_name-letters name rest s letters few blank =
    rw (blank, c_string-short_chars 13 name rest letters few) refl

pub entry_name-letters :
    {S : Type 0} (name rest : List ℕ) (s : S)
    → AreLetters name
    → length name < 13
    → first (drop 8 (name ++ b' ' ∷ b' ' ∷ rest)) ≡ b' '
    → entry_name (name ++ b' ' ∷ b' ' ∷ rest) no_lfn s ≡ done ((name, 13), s)
unfolding entry_name
entry_name-letters name rest s letters few blank =
    pass-eq _ (short_name-letters name rest s letters few blank) refl

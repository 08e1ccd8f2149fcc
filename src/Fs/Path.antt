-- ===== src/Fs/Path.antt =====
-- fs/fs.c, the functions on paths. A string is the list of its characters, without the NUL.
pub mod Parse
pub mod Equal
use systemcommander.Common.{
  ℕ, zero, suc, ◌-◌, Bool, true, false, ◌&&◌, ◌||◌, Option, none, some, List, [], ◌∷◌, ◌++◌, length,
  drop, ltb, leb, ◌==◌, if◌then◌else◌,
}
use systemcommander.Common.Int.{ℤ, pos, negsuc}
use systemcommander.Libc.Compare.{strcmp, strncmp}

-- The field `depth` is the length of the list.
pub record FsPath : Type 0 where
  pub components : List (List ℕ)

abbrev pub depth : FsPath → ℕ
depth path = length path.components

abbrev pub root_path : FsPath
root_path = record { components = [] }

-- Behind the loop: a component that has been begun is kept.
abbrev finish : List ℕ → List (List ℕ)
finish [] = []
finish (c ∷ component) = (c ∷ component) ∷ []

-- A component of 255 characters has its NUL behind the 255 bytes that are asked for, in what `malloc`
-- adds up to 256. The loop of `create_path` over the characters behind the first: how many components may still be
-- stored, and the characters of the one that is being read.
split : List ℕ → ℕ → List ℕ → List (List ℕ)
split [] room component = finish component
split (c ∷ chars) zero component = finish component
split (c ∷ chars) (suc room) component =
    let next = component ∷ split chars room [] in
    let longer = split chars (suc room) (component ++ c ∷ []) in
    if c == b'/' || leb 255 (length component) then next else longer

-- `none` for the empty string, where the code reads behind the NUL.
pub create_path : List ℕ → ℕ → Option FsPath
unfolding split
create_path [] max_depth = none
create_path (c ∷ []) max_depth = some root_path
create_path (c ∷ d ∷ chars) max_depth =
    some (record { components = split (d ∷ chars) max_depth [] })

abbrev pub is_zero : ℤ → Bool
is_zero (pos zero) = true
is_zero (pos (suc n)) = false
is_zero (negsuc n) = false

-- The loop of `paths_equal`, for lists of the same length.
equal_components : List (List ℕ) → List (List ℕ) → Bool
equal_components [] _ = true
equal_components (c ∷ cs) [] = true
equal_components (c ∷ cs) (d ∷ ds) =
    let rest = equal_components cs ds in if is_zero (strncmp c d 255) then rest else false

pub paths_equal : FsPath → FsPath → Bool
unfolding equal_components
paths_equal p1 p2 =
    if depth p1 == depth p2
    then (if depth p1 == 0 && depth p2 == 0
        then true
        else equal_components p1.components p2.components)
    else false

-- The loop of `resolve_mountpoint` over the components of a mount's path, which is no deeper than the
-- other path.
pub components_match : List (List ℕ) → List (List ℕ) → Bool
components_match [] _ = true
components_match (c ∷ cs) [] = true
components_match (c ∷ cs) (d ∷ ds) =
    let rest = components_match cs ds in if is_zero (strcmp c d) then rest else false

-- ===== src/Fs/Path/Parse.antt =====
-- `create_path` reads back a path that is written out.
use mathlib.Core.List.{append_assoc, append-nil}
use systemcommander.Common.{
  ℕ, zero, suc, ◌+◌, ◌≤◌, ◌<◌, ◌≡◌, ◌≢◌, refl, ap, ◌∙◌, false, ◌||◌, some, List, [], ◌∷◌, ◌++◌,
  length, length-append, arith, inl, inr, Bool-cases, leb, ◌==◌,
}
use systemcommander.Fs.Path.{FsPath, depth, finish, split, create_path}

-- A component has 1 to 255 characters, none of them a slash.
abbrev pub NoSlash : List ℕ → Type 0
NoSlash [] = Unit
NoSlash (c ∷ cs) = (c ≢ b'/') × NoSlash cs

abbrev pub AreComponents : List (List ℕ) → Type 0
AreComponents [] = Unit
AreComponents (c ∷ cs) = NoSlash c × (length c ≤ 255) × (0 < length c) × AreComponents cs

-- "/a/b" for the components a and b, and "/" for none.
pub render_rest : List (List ℕ) → List ℕ
render_rest [] = []
render_rest (c ∷ cs) = b'/' ∷ (c ++ render_rest cs)

pub render : List (List ℕ) → List ℕ
unfolding render_rest
render [] = b'/' ∷ []
render (c ∷ cs) = render_rest (c ∷ cs)

split-append :
    (name rest acc : List ℕ) (room : ℕ)
    → NoSlash name
    → length acc + length name ≤ 255
    → split (name ++ rest) (suc room) acc ≡ split rest (suc room) (acc ++ name)
unfolding split
split-append [] rest acc room h le = rw (append-nil acc)
split-append (c ∷ name) rest acc room h le =
    let slash : (c == b'/') ≡ false = ground (arith, h.0) in
    let short : leb 255 (length acc) ≡ false = ground arith in
    rw (slash, short)
      (split-append name rest (acc ++ c ∷ []) room h.1 (omega (arith, length-append acc (c ∷ [])))
        ∙ ap (split rest (suc room)) (append_assoc acc (c ∷ []) name))

finish_all : (c : List ℕ) → 0 < length c → finish c ≡ c ∷ []
finish_all [] h = absurd (omega arith)
finish_all (x ∷ c) h = refl

split-render :
    (name : List ℕ) (cs : List (List ℕ)) (room : ℕ)
    → NoSlash name
    → length name ≤ 255
    → 0 < length name
    → AreComponents cs
    → length cs ≤ room
    → split (name ++ render_rest cs) (suc room) [] ≡ name ∷ cs
unfolding split render_rest
split-render name [] room h le pos hs fits =
    split-append name [] [] room h (omega arith) ∙ finish_all name pos
split-render name (c ∷ cs) zero h le pos hs fits = absurd (omega arith)
split-render name (c ∷ cs) (suc room) h le pos hs fits =
    split-append name (render_rest (c ∷ cs)) [] (suc room) h (omega arith)
    ∙ ap (λ t. name ∷ t) (split-render c cs room hs.0 hs.1 hs.2 hs.3 (omega arith))

-- Parsing a rendered path gives its components back, if they are not more than the depth allows.
pub create_path-render :
    (cs : List (List ℕ)) (max_depth : ℕ)
    → AreComponents cs
    → length cs ≤ max_depth
    → create_path (render cs) max_depth ≡ some (record { components = cs })
unfolding create_path render render_rest
create_path-render [] max_depth h le = refl
create_path-render (c ∷ cs) zero h le = absurd (omega arith)
create_path-render ([] ∷ cs) (suc room) h le = absurd (omega arith)
create_path-render ((x ∷ c) ∷ cs) (suc room) h le =
    ap (λ t. some (record { components = t }))
      (split-render (x ∷ c) cs room h.0 h.1 h.2 h.3 (omega arith))

split-length :
    (chars : List ℕ) (room : ℕ) (acc : List ℕ)
    → (room ≡ 0 → acc ≡ [])
    → length (split chars room acc) ≤ room
unfolding split
split-length [] zero acc h = rw (h refl) (omega arith)
split-length [] (suc room) [] h = omega arith
split-length [] (suc room) (a ∷ acc) h = omega arith
split-length (c ∷ chars) zero acc h = rw (h refl) (omega arith)
split-length (c ∷ chars) (suc room) acc h = elim (Bool-cases (c == b'/' || leb 255 (length acc))) [
  | inl e ↦ rw e (omega (arith, split-length chars room [] (λ z. refl)))
  | inr e ↦ rw e (split-length chars (suc room) (acc ++ c ∷ []) (λ z. absurd (omega arith)))
]

-- However long the text, a parsed path has at most the given depth, which is the number of
-- components that the code allocates.
pub create_path-depth :
    (text : List ℕ) (max_depth : ℕ) (path : FsPath)
    → create_path text max_depth ≡ some path
    → depth path ≤ max_depth
unfolding create_path
create_path-depth [] max_depth path h = cc
create_path-depth (c ∷ []) max_depth path h = ground (arith, h)
create_path-depth (c ∷ d ∷ chars) max_depth path h =
    ground (arith, h, split-length (d ∷ chars) max_depth [] (λ z. refl))

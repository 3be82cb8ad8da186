-- ===== src/Files/Path.antt =====
-- std::filesystem::path as file_manager uses it: the extension of a path, by the rules of the C++ standard
-- for a path with `/` between its parts.
use sketch_sync.Prelude.{
  ℕ, ◌≡◌, refl, Bool, true, false, ◌&&◌, Option, none, some, [], ◌∷◌, ◌++◌, ◌==◌, if◌then◌else◌,
  arith, ==_refl,
}
use sketch_sync.Results.{text}
use sketch_sync.Bytes.{Bytes}

-- operator== of std::string.
unfoldable pub equal : Bytes → Bytes → Bool
equal [] [] = true
equal [] (y ∷ ys) = false
equal (x ∷ xs) [] = false
equal (x ∷ xs) (y ∷ ys) = x == y && equal xs ys

pub equal_refl : (xs : Bytes) → equal xs xs ≡ true
unfolding equal
equal_refl [] = refl
equal_refl (x ∷ xs) = rw (==_refl x, equal_refl xs) refl

pub equal_sound : (xs ys : Bytes) → equal xs ys ≡ true → xs ≡ ys
unfolding equal
equal_sound [] [] e = refl
equal_sound [] (y ∷ ys) e = cc
equal_sound (x ∷ xs) [] e = cc
equal_sound (x ∷ xs) (y ∷ ys) e = ground (arith, equal_sound xs ys)

-- Around the last occurrence of a byte.
unfoldable pub split_last : ℕ → Bytes → Option (Bytes × Bytes)
split_last b [] = none
split_last b (c ∷ cs) = elim (split_last b cs) [
  | some (before, behind) ↦ some (c ∷ before, behind)
  | none ↦ if c == b then some ([], cs) else none
]

unfoldable pub filename : Bytes → Bytes
filename path = elim (split_last b'/' path) [ none ↦ path | some (before, behind) ↦ behind ]

-- A name that is two dots, or whose last dot comes first, has no extension.
unfoldable pub extension : Bytes → Bytes
extension path =
    let name = filename path in
    if equal name (text "..") then [] else elim (split_last b'.' name) [
      | none ↦ []
      | some ([], behind) ↦ []
      | some (c ∷ before, behind) ↦ b'.' ∷ behind
    ]

abbrev pub suffix : Bytes
suffix = text ".sketchsync"

-- The path that save_to_file writes to.
pub with_extension : Bytes → Bytes
with_extension path = if equal (extension path) suffix then path else path ++ suffix

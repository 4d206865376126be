-- ===== src/Engine/Assets.antt =====
-- `resolveAsset` of `StreamEngine`. The generated BinaryData is a parameter: each resource's original
-- file name and what getNamedResource gives for it, in the order of the lists.
pub mod Throwing
pub mod Tests
use phonepostmix.Base.{
  ℕ, ◌≡◌, ◌≢◌, arith, bytes_eq, if◌then◌else◌, Option, none, some, List, [], ◌∷◌,
}
use phonepostmix.Http.{bytes, path_of, split_at_first, mime_type_for_path}
use phonepostmix.Server.Thread.{Asset}

abbrev pub Resources : Type 0
Resources = List (List ℕ × Option (List ℕ))

abbrev pub found_as : List ℕ → Option (List ℕ) → Option Asset → Option Asset
found_as file none rest = rest
found_as file (some content) rest =
    some (record { content = content; mime_type = mime_type_for_path file })

-- The loop over the resources.
unfoldable pub find_resource : List ℕ → Resources → Option Asset
find_resource file [] = none
find_resource file ((name, content) ∷ resources) =
    let rest = find_resource file resources in
    if bytes_eq file name then found_as file content rest else rest

-- `none` where `path.substr (1)` throws std::out_of_range.
unfoldable pub file_of : List ℕ → Option (List ℕ)
file_of [] = none
file_of (c ∷ path) =
    if bytes_eq (c ∷ path) (bytes "/") then some (bytes "index.html") else some path

unfoldable pub resolve_asset : Resources → List ℕ → Option (Option Asset)
unfolding find_resource file_of
resolve_asset resources path = elim (file_of path) [
  | none ↦ none
  | some file ↦ some (find_resource file resources)
]

-- A request's target, of one character or more, makes `resolveAsset` throw just where it begins
-- with a question mark, so that its path is empty; what the resources are does not matter.
pub resolve_asset_throws :
    (resources : Resources) (c : ℕ) (target : List ℕ)
    → (c ≡ 63 → resolve_asset resources (path_of (c ∷ target)) ≡ none)
      × (c ≢ 63 → resolve_asset resources (path_of (c ∷ target)) ≢ none)
unfolding resolve_asset path_of split_at_first file_of
resolve_asset_throws resources c target = (λ e. ground arith, λ n. ground arith)

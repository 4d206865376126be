-- ===== src/Engine/Addresses.antt =====
-- Which addresses `StreamEngine` offers, and in which order: `isUsefulAddress`, `addressPriority`,
-- `refreshAddresses`, `getPreferredAddress`. An address is what juce::IPAddress tells of it.
pub mod Order
pub mod Tests
use phonepostmix.Base.{
  ℕ, zero, suc, Bool, true, false, not, bytes_eq, ltb, length, take, ◌&&◌, ◌||◌, if◌then◌else◌,
  List, [], ◌∷◌, ◌++◌,
}
use phonepostmix.Http.{bytes, decimal}

-- isIPv6, isNull and toString.
pub record IpAddress : Type 0 where
  pub is_ipv6 : Bool
  pub is_null : Bool
  pub text : List ℕ

-- What the code asks of juce::String and juce::StringArray.
pub record StringOps : Type 0 where
  pub starts_with : List ℕ → List ℕ → Bool
  pub contains : List (List ℕ) → List ℕ → Bool
  pub add_if_not_already_there : List (List ℕ) → List ℕ → List (List ℕ)

module _ (S : StringOps) where
  unfoldable pub is_useful_address : IpAddress → Bool
  is_useful_address address =
      if address.is_ipv6 || address.is_null
      then false
      else not (S.starts_with address.text (bytes "127."))
        && not (S.starts_with address.text (bytes "169.254."))

  unfoldable pub address_priority : List ℕ → ℕ
  address_priority address =
      if S.starts_with address (bytes "192.168.")
      then 0
      else if S.starts_with address (bytes "10.")
      then 1
      else if S.starts_with address (bytes "172.")
      then 2
      else 3

  -- The loop over `all`.
  unfoldable pub find_useful : List IpAddress → List (List ℕ) → List (List ℕ)
  unfolding is_useful_address
  find_useful [] found = found
  find_useful (a ∷ all) found =
      let added = find_useful all (S.add_if_not_already_there found a.text) in
      let skipped = find_useful all found in if is_useful_address a then added else skipped

  -- std::stable_sort by the priority, as insertion in front of the first that is not smaller.
  unfoldable pub insert : List ℕ → List (List ℕ) → List (List ℕ)
  unfolding address_priority
  insert address [] = address ∷ []
  insert address (x ∷ sorted) =
      let rest = insert address sorted in
      if ltb (address_priority x) (address_priority address) then x ∷ rest else address ∷ x ∷ sorted

  unfoldable pub stable_sort : List (List ℕ) → List (List ℕ)
  unfolding insert
  stable_sort [] = []
  stable_sort (x ∷ addresses) = insert x (stable_sort addresses)

  -- What becomes of `addresses`.
  unfoldable pub refresh_addresses : List IpAddress → List (List ℕ)
  unfolding find_useful stable_sort
  refresh_addresses all = stable_sort (find_useful all [])

  abbrev pub first_of : List (List ℕ) → List ℕ
  first_of [] = []
  first_of (x ∷ addresses) = x

  unfoldable pub get_preferred_address : List ℕ → List (List ℕ) → List ℕ
  get_preferred_address preferred_address addresses =
      if not (bytes_eq preferred_address []) && S.contains addresses preferred_address
      then preferred_address
      else first_of addresses

  unfoldable pub get_listen_url : List ℕ → List ℕ → List (List ℕ) → Bool → ℕ → List ℕ
  unfolding get_preferred_address
  get_listen_url token preferred_address addresses server_running port =
      let address = get_preferred_address preferred_address addresses in
      if bytes_eq address [] || not server_running
      then []
      else bytes "http://" ++ address ++ bytes ":" ++ decimal port ++ bytes "/#t=" ++ token

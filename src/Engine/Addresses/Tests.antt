-- ===== src/Engine/Addresses/Tests.antt =====
-- The addresses of a concrete machine.
use phonepostmix.Base.{
  ℕ, ◌≡◌, refl, false, bytes_eq, ltb, length, take, if◌then◌else◌, List, [], ◌∷◌, ◌++◌,
}
use phonepostmix.Http.{bytes}
use phonepostmix.Engine.Addresses.{
  IpAddress, StringOps, is_useful_address, address_priority, find_useful, insert, stable_sort,
  refresh_addresses,
}
use phonepostmix.Engine.Addresses.Order.{
  count, StringLaws, is_offered, with_priority, Ascends, refresh_addresses_lem,
}

abbrev pub strings : StringOps
strings = record {
  starts_with = λ text prefix. bytes_eq (take (length prefix) text) prefix;
  contains = λ xs x. ltb 0 (count x xs);
  add_if_not_already_there = λ xs x. if ltb 0 (count x xs) then xs else xs ++ x ∷ [];
}

pub strings-StringLaws : StringLaws strings
strings-StringLaws = record { contains_lem = λ xs x. refl; add_lem = λ xs x. refl }

abbrev ip : List ℕ → IpAddress
ip text = record { is_ipv6 = false; is_null = false; text = text }

abbrev machine : List IpAddress
machine =
    ip (bytes "127.0.0.1")
    ∷ ip (bytes "172.17.0.1")
    ∷ ip (bytes "10.1.2.3")
    ∷ ip (bytes "192.168.1.7")
    ∷ ip (bytes "10.0.0.4")
    ∷ ip (bytes "10.1.2.3")
    ∷ []

refresh-machine :
    refresh_addresses strings machine
    ≡ bytes "192.168.1.7" ∷ bytes "10.1.2.3" ∷ bytes "10.0.0.4" ∷ bytes "172.17.0.1" ∷ []
unfolding refresh_addresses find_useful is_useful_address stable_sort insert address_priority count
refresh-machine = refl

refresh_addresses_lem_example :
    Ascends strings 0 (refresh_addresses strings machine)
    × ((x : List ℕ)
        → count x (refresh_addresses strings machine)
          ≡ (if is_offered strings x machine then 1 else 0))
    × ((p : ℕ)
        → with_priority strings p (refresh_addresses strings machine)
          ≡ with_priority strings p (find_useful strings machine []))
refresh_addresses_lem_example = refresh_addresses_lem strings strings-StringLaws machine

-- ===== src/Older/System/Interfaces.antt =====
-- `get_local_ip_address_list`: the addresses of the network's interfaces, by the name of the
-- interface.
use mathlib.Core.Path.{subst}
use simple_server.Prelude.{
  ℕ, suc, ◌≡◌, refl, sym, Option, none, some, List, [], ◌∷◌, ◌++◌, Bytes, All, if◌then◌else◌,
  Bool-cases, inl, inr, ◌⊎◌,
}
use simple_server.Text.Search.{text_eq, text_eq_sound}
use simple_server.Text.Decimal.{to_decimal}
use simple_server.Text.StringMap.{Map, lookup, insert}
use simple_server.Text.Words.{is_empty}

-- `ifa_addr` with its family; the text is that of `inet_ntop`.
pub data Address : Type 0 where
  missing : Address
  inet : Bytes → Address
  inet6 : Bytes → Address
  other_family : Address

-- `struct ifaddrs`
pub record Interface : Type 0 where
  pub ifa_name : Bytes
  pub ifa_addr : Address

-- The local variables `ret` and `cnt`.
pub record Addresses : Type 0 where
  pub ret : Map Bytes
  pub cnt : ℕ

-- `ret[key]`, which makes an empty entry where there is none.
abbrev pub value_at : Bytes → Map Bytes → Bytes
value_at key m = elim (lookup key m) [ none ↦ [] | some v ↦ v ]

-- The branch of either family: the test `!length != 0` asks whether the entry is empty.
unfoldable pub add_address : Bytes → Bytes → Addresses → Addresses
add_address name address s =
    if is_empty (value_at name s.ret)
    then record s { ret = insert name address s.ret }
    else record { ret = insert (name ++ to_decimal (suc s.cnt)) address s.ret; cnt = suc s.cnt }

unfoldable pub add_interface : Interface → Addresses → Addresses
unfolding add_address
add_interface ifa s = elim ifa.ifa_addr [
  | missing ↦ s
  | inet address ↦ add_address ifa.ifa_name address s
  | inet6 address ↦ add_address ifa.ifa_name address s
  | other_family ↦ s
]

unfoldable pub add_interfaces : List Interface → Addresses → Addresses
unfolding add_interface
add_interfaces [] s = s
add_interfaces (ifa ∷ rest) s = add_interfaces rest (add_interface ifa s)

-- `none` for `getifaddrs` is its failure.
unfoldable pub get_local_ip_address_list : Option (List Interface) → Map Bytes
unfolding add_interfaces
get_local_ip_address_list none = []
get_local_ip_address_list (some interfaces) =
    (add_interfaces interfaces (record { ret = []; cnt = 0 })).ret

-- The key of an entry: the name of an interface, or the name with a number behind it.
abbrev pub IsKeyOf : Bytes → Bytes → Type 0
IsKeyOf name key = (key ≡ name) ⊎ ((n : ℕ) × (key ≡ name ++ to_decimal n))

-- The entry holds an address of an interface under a key of that interface.
abbrev pub IsEntryOf : (Bytes → Bytes → Type 0) → Bytes × Bytes → Type 0
IsEntryOf Has (key, address) = (name : Bytes) × Has name address × IsKeyOf name key

All-insert :
    (P : Bytes × Bytes → Type 0) (key value : Bytes) (m : Map Bytes)
    → P (key, value)
    → All P m
    → All P (insert key value m)
unfolding insert
All-insert P key value [] h hs = (h, hs)
All-insert P key value ((k, v) ∷ m) h (hv, hs) = elim (Bool-cases (text_eq k key)) [
  | inl e ↦ rw e (subst (λ k. P (k, value)) (sym (text_eq_sound k key e)) h, hs)
  | inr e ↦ rw e (hv, All-insert P key value m h hs)
]

module _ (Has : Bytes → Bytes → Type 0) where
  -- The interface has its address, if it is an IPv4 or IPv6 address.
  abbrev pub HasAddress : Interface → Type 0
  HasAddress ifa = elim ifa.ifa_addr [
    | missing ↦ Unit
    | inet address ↦ Has ifa.ifa_name address
    | inet6 address ↦ Has ifa.ifa_name address
    | other_family ↦ Unit
  ]

  add_address-All :
      (name address : Bytes) (s : Addresses)
      → Has name address
      → All (IsEntryOf Has) s.ret
      → All (IsEntryOf Has) (add_address name address s).ret
  unfolding add_address
  add_address-All name address s h hs = elim (Bool-cases (is_empty (value_at name s.ret))) [
    | inl e ↦ rw e (All-insert (IsEntryOf Has) name address s.ret (name, h, inl refl) hs)
    | inr e ↦ rw e (
        All-insert (IsEntryOf Has) (name ++ to_decimal (suc s.cnt)) address s.ret
          (name, h, inr (suc s.cnt, refl)) hs)
  ]

  add_interface-All :
      (name : Bytes) (a : Address) (s : Addresses)
      → let ifa : Interface = record { ifa_name = name; ifa_addr = a } in
        HasAddress ifa → All (IsEntryOf Has) s.ret → All (IsEntryOf Has) (add_interface ifa s).ret
  unfolding add_interface
  add_interface-All name missing s h hs = hs
  add_interface-All name (inet address) s h hs = add_address-All name address s h hs
  add_interface-All name (inet6 address) s h hs = add_address-All name address s h hs
  add_interface-All name other_family s h hs = hs

  add_interfaces-All :
      (interfaces : List Interface) (s : Addresses)
      → All HasAddress interfaces
      → All (IsEntryOf Has) s.ret
      → All (IsEntryOf Has) (add_interfaces interfaces s).ret
  unfolding add_interfaces
  add_interfaces-All [] s h hs = hs
  add_interfaces-All (ifa ∷ rest) s (h, k) hs =
      add_interfaces-All rest (add_interface ifa s) k
        (add_interface-All ifa.ifa_name ifa.ifa_addr s h hs)

  -- Every entry of the result is an address that some interface has, under the name of that
  -- interface, with or without a number behind it.
  pub get_local_ip_address_list-All :
      (interfaces : List Interface)
      → All HasAddress interfaces
      → All (IsEntryOf Has) (get_local_ip_address_list (some interfaces))
  unfolding get_local_ip_address_list
  get_local_ip_address_list-All interfaces h =
      add_interfaces-All interfaces (record { ret = []; cnt = 0 }) h tt

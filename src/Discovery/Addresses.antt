-- ===== src/Discovery/Addresses.antt =====
-- peer_service/main.go: the addresses of the admin, merged and put in the order in which they are
-- tried.
--
-- An address is its text, with what `manet.IsPrivateAddr` says of it.

pub mod Order
pub mod Tried
use p2ptogether.Prelude.{
  Bool, not, ◌&&◌, ◌||◌, List, [], ◌∷◌, ◌++◌, map, nat_eq, list_eq, if◌then◌else◌, is_some,
  contains,
}
use p2ptogether.Names.{Text, text}
use p2ptogether.Names.Decimal.{cut_prefix}

pub record Multiaddr : Type 0 where
  pub string : Text
  pub is_private : Bool

-- `strings.Contains`
unfoldable pub contains_text : Text → Text → Bool
contains_text part [] = is_some (cut_prefix part [])
contains_text part (c ∷ s) = is_some (cut_prefix part (c ∷ s)) || contains_text part s

unfoldable pub is_quic_addr : Multiaddr → Bool
is_quic_addr addr = contains_text (text "/quic") addr.string

-- The four slices of `sortAddressesLocalFirst`.
pub record Buckets : Type 0 where
  pub local_quic : List Multiaddr
  pub local_other : List Multiaddr
  pub public_quic : List Multiaddr
  pub public_other : List Multiaddr

unfoldable pub put : Multiaddr → Buckets → Buckets
put addr b =
    let is_quic = is_quic_addr addr in
    if addr.is_private && is_quic
    then record b { local_quic = b.local_quic ++ addr ∷ [] }
    else if addr.is_private && not is_quic
    then record b { local_other = b.local_other ++ addr ∷ [] }
    else if not addr.is_private && is_quic
    then record b { public_quic = b.public_quic ++ addr ∷ [] }
    else record b { public_other = b.public_other ++ addr ∷ [] }

unfoldable pub put_all : List Multiaddr → Buckets → Buckets
put_all [] b = b
put_all (addr ∷ addrs) b = put_all addrs (put addr b)

unfoldable pub sort_addresses_local_first : List Multiaddr → List Multiaddr
unfolding put_all
sort_addresses_local_first addrs =
    let b =
      put_all addrs
        (record { local_quic = []; local_other = []; public_quic = []; public_other = [] }) in
    b.local_quic ++ b.local_other ++ b.public_quic ++ b.public_other

-- The loop over the addresses of the peerstore, with the texts seen so far.
unfoldable pub merge_new : List Text → List Multiaddr → List Multiaddr
merge_new seen [] = []
merge_new seen (addr ∷ addrs) =
    let rest = merge_new seen addrs in
    let rest' = merge_new (addr.string ∷ seen) addrs in
    if contains addr.string seen then rest else addr ∷ rest'

unfoldable pub merge_addresses : List Multiaddr → List Multiaddr → List Multiaddr
unfolding merge_new
merge_addresses found stored = found ++ merge_new (map (λ a. a.string) found) stored

-- ===== src/Discovery/Addresses/Order.antt =====
-- The order of the sorted addresses, and what the merge keeps (main.go).
use p2ptogether.Prelude.{
  ℕ, ◌+◌, ◌≤◌, ◌<◌, ◌≡◌, refl, arith, Bool, true, false, not, ◌&&◌, List, [], ◌∷◌, ◌++◌, ◌==◌,
  nat_eq, list_eq, if◌then◌else◌, filter, All, ◌∙◌, ap,
}
use mathlib.Core.List.{append_assoc, append-nil}
use p2ptogether.Discovery.Addresses.{
  Multiaddr, Buckets, is_quic_addr, put, put_all, sort_addresses_local_first,
}

abbrev rank_of : Bool → Bool → ℕ
rank_of is_private is_quic = (if is_private then 0 else 2) + (if is_quic then 0 else 1)

-- Local before public, and QUIC before the rest.
unfoldable pub rank : Multiaddr → ℕ
rank addr = rank_of addr.is_private (is_quic_addr addr)

abbrev pub ranked : ℕ → List Multiaddr → List Multiaddr
ranked k addrs = filter (λ a. rank a == k) addrs

-- No address stands behind one of a higher rank.
abbrev pub Ascending : List Multiaddr → Type 0
Ascending [] = Unit
Ascending (addr ∷ addrs) = All (λ a. rank addr ≤ rank a) addrs × Ascending addrs

add_ranked : List Multiaddr → Buckets → Buckets
add_ranked addrs b = record {
  local_quic = b.local_quic ++ ranked 0 addrs;
  local_other = b.local_other ++ ranked 1 addrs;
  public_quic = b.public_quic ++ ranked 2 addrs;
  public_other = b.public_other ++ ranked 3 addrs;
}

chosen : (is_private is_quic : Bool) (addr : Multiaddr) (b : Buckets) → Buckets
chosen is_private is_quic addr b =
    if is_private && is_quic
    then record b { local_quic = b.local_quic ++ addr ∷ [] }
    else if is_private && not is_quic
    then record b { local_other = b.local_other ++ addr ∷ [] }
    else if not is_private && is_quic
    then record b { public_quic = b.public_quic ++ addr ∷ [] }
    else record b { public_other = b.public_other ++ addr ∷ [] }

-- The bucket that is chosen is the one of the rank.
chosen-rank_of :
    (is_private is_quic : Bool) (addr : Multiaddr) (b : Buckets)
    → let one = λ (k : ℕ). if rank_of is_private is_quic == k then addr ∷ [] else [] in
      chosen is_private is_quic addr b ≡ record {
        local_quic = b.local_quic ++ one 0;
        local_other = b.local_other ++ one 1;
        public_quic = b.public_quic ++ one 2;
        public_other = b.public_other ++ one 3;
      }
unfolding chosen
chosen-rank_of true true addr b = simp (append-nil)
chosen-rank_of true false addr b = simp (append-nil)
chosen-rank_of false true addr b = simp (append-nil)
chosen-rank_of false false addr b = simp (append-nil)

put-ranked : (addr : Multiaddr) (b : Buckets) → put addr b ≡ add_ranked (addr ∷ []) b
unfolding put add_ranked rank chosen
put-ranked addr b = chosen-rank_of addr.is_private (is_quic_addr addr) addr b

grow :
    (c : Bool) (addr : Multiaddr) (xs ys : List Multiaddr)
    → (xs ++ (if c then addr ∷ [] else [])) ++ ys ≡ xs ++ (if c then addr ∷ ys else ys)
grow true addr xs ys = append_assoc xs (addr ∷ []) ys
grow false addr xs ys = simp (append-nil)

add_ranked-∷ :
    (addr : Multiaddr) (addrs : List Multiaddr) (b : Buckets)
    → add_ranked addrs (add_ranked (addr ∷ []) b) ≡ add_ranked (addr ∷ addrs) b
unfolding add_ranked
add_ranked-∷ addr addrs b = λ i. record {
  local_quic = grow (rank addr == 0) addr b.local_quic (ranked 0 addrs) i;
  local_other = grow (rank addr == 1) addr b.local_other (ranked 1 addrs) i;
  public_quic = grow (rank addr == 2) addr b.public_quic (ranked 2 addrs) i;
  public_other = grow (rank addr == 3) addr b.public_other (ranked 3 addrs) i;
}

put_all-ranked : (addrs : List Multiaddr) (b : Buckets) → put_all addrs b ≡ add_ranked addrs b
unfolding put_all
put_all-ranked [] b = unfold add_ranked in simp (append-nil)
put_all-ranked (addr ∷ addrs) b =
    put_all-ranked addrs (put addr b)
    ∙ ap (add_ranked addrs) (put-ranked addr b)
    ∙ add_ranked-∷ addr addrs b

-- The sorted addresses are those of rank 0, then of rank 1, 2 and 3, each in the given order.
pub sort_ranked :
    (addrs : List Multiaddr)
    → sort_addresses_local_first addrs
      ≡ ranked 0 addrs ++ ranked 1 addrs ++ ranked 2 addrs ++ ranked 3 addrs
unfolding sort_addresses_local_first add_ranked
sort_ranked addrs =
    let empty : Buckets = record {
      local_quic = [];
      local_other = [];
      public_quic = [];
      public_other = [];
    } in
    ap (λ b. b.local_quic ++ b.local_other ++ b.public_quic ++ b.public_other)
      (put_all-ranked addrs empty)

pub ranked-append :
    (k : ℕ) (xs ys : List Multiaddr) → ranked k (xs ++ ys) ≡ ranked k xs ++ ranked k ys
ranked-append k [] ys = refl
ranked-append k (x ∷ xs) ys = ground (arith, ranked-append k xs ys)

pub ranked-ranked :
    (k j : ℕ) (addrs : List Multiaddr)
    → ranked k (ranked j addrs) ≡ (if j == k then ranked k addrs else [])
ranked-ranked k j [] = ground arith
ranked-ranked k j (x ∷ xs) =
    ground (arith, ranked-ranked k j xs, nat_eq.same_iff (rank x) j, nat_eq.same_iff (rank x) k)

rank_lt : (addr : Multiaddr) → rank addr < 4
unfolding rank
rank_lt addr = ground arith

pub ranked_out : (k : ℕ) (addrs : List Multiaddr) → 4 ≤ k → ranked k addrs ≡ []
ranked_out k [] h = refl
ranked_out k (x ∷ xs) h = ground (arith, rank_lt x, ranked_out k xs h)

pub All-ranked : (k : ℕ) (addrs : List Multiaddr) → All (λ a. rank a ≡ k) (ranked k addrs)
All-ranked k [] = tt
All-ranked k (x ∷ xs) = ground (arith, All-ranked k xs)

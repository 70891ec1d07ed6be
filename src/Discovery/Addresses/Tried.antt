-- ===== src/Discovery/Addresses/Tried.antt =====
-- The addresses at which the admin is tried: merged, and local ones first (main.go).
use p2ptogether.Prelude.{
  ℕ, zero, suc, ◌≤◌, ◌<◌, ◌≡◌, refl, arith, Bool, not, ◌&&◌, ◌||◌, List, [], ◌∷◌, ◌++◌, map, ◌==◌,
  nat_eq, list_eq, if◌then◌else◌, contains, All, sym, ◌∙◌, ap, list_beq_iff, subst,
}
use mathlib.Core.List.{append_assoc, append-nil}
use p2ptogether.Names.{Text}
use p2ptogether.Discovery.Addresses.{
  Multiaddr, sort_addresses_local_first, merge_new, merge_addresses,
}
use p2ptogether.Discovery.Addresses.Order.{
  rank, ranked, Ascending, sort_ranked, ranked-append, ranked-ranked, ranked_out, All-ranked,
}

-- The same addresses of each rank, in the same order.
none_of : (j k : ℕ) (xs : List Multiaddr) → j < k → (if j == k then xs else []) ≡ []
none_of j k xs h = ground arith

four :
    (k : ℕ) (addrs : List Multiaddr)
    → let part = λ (j : ℕ). if j == k then ranked k addrs else [] in
      part 0 ++ part 1 ++ part 2 ++ part 3 ≡ ranked k addrs
four zero addrs = simp (append-nil)
four (suc zero) addrs = simp (append-nil)
four (suc (suc zero)) addrs = simp (append-nil)
four (suc (suc (suc zero))) addrs = refl
four (suc (suc (suc (suc k)))) addrs =
    let far : ℕ = suc (suc (suc (suc k))) in
    let xs = ranked far addrs in
    rw
      (
        none_of 0 far xs (omega arith),
        none_of 1 far xs (omega arith),
        none_of 2 far xs (omega arith),
        none_of 3 far xs (omega arith),
      )
      (sym (ranked_out far addrs (omega arith)))

sorted_stable :
    (k : ℕ) (addrs : List Multiaddr) → ranked k (sort_addresses_local_first addrs) ≡ ranked k addrs
sorted_stable k addrs =
    rw
      (
        sort_ranked addrs,
        ranked-append k (ranked 0 addrs ++ ranked 1 addrs ++ ranked 2 addrs) (ranked 3 addrs),
        ranked-append k (ranked 0 addrs ++ ranked 1 addrs) (ranked 2 addrs),
        ranked-append k (ranked 0 addrs) (ranked 1 addrs),
        ranked-ranked k 0 addrs,
        ranked-ranked k 1 addrs,
        ranked-ranked k 2 addrs,
        ranked-ranked k 3 addrs,
      )
      (four k addrs)

All-le :
    (m n : ℕ) (xs : List Multiaddr) → m ≤ n → All (λ a. n ≤ rank a) xs → All (λ a. m ≤ rank a) xs
All-le m n [] h l = tt
All-le m n (x ∷ xs) h l = (omega (arith, l.0), All-le m n xs h l.1)

-- Addresses of one rank in front of higher ones.
same_rank :
    (k : ℕ) (xs ys : List Multiaddr)
    → All (λ a. rank a ≡ k) xs
    → All (λ a. k ≤ rank a) ys
    → Ascending ys
    → Ascending (xs ++ ys) × All (λ a. k ≤ rank a) (xs ++ ys)
same_rank k [] ys h l a = (a, l)
same_rank k (x ∷ xs) ys h l a =
    let (ascending, above) = same_rank k xs ys h.1 l a in
    let here : rank x ≡ k = h.0 in
    (
      (subst (λ n. All (λ a. n ≤ rank a) (xs ++ ys)) (sym here) above, ascending),
      (omega arith, above),
    )

sorted-Ascending : (addrs : List Multiaddr) → Ascending (sort_addresses_local_first addrs)
sorted-Ascending addrs =
    let (a3, l3) = same_rank 3 (ranked 3 addrs) [] (All-ranked 3 addrs) tt tt in
    let above2 = All-le 2 3 (ranked 3 addrs ++ []) (omega arith) l3 in
    let (a2, l2) = same_rank 2 (ranked 2 addrs) _ (All-ranked 2 addrs) above2 a3 in
    let above1 = All-le 1 2 _ (omega arith) l2 in
    let (a1, l1) = same_rank 1 (ranked 1 addrs) _ (All-ranked 1 addrs) above1 a2 in
    let above0 = All-le 0 1 _ (omega arith) l1 in
    let (a0, l0) = same_rank 0 (ranked 0 addrs) _ (All-ranked 0 addrs) above0 a1 in
    subst Ascending (sym (sort_ranked addrs ∙ nested)) a0
  where
    nested :
        ranked 0 addrs ++ ranked 1 addrs ++ ranked 2 addrs ++ ranked 3 addrs
        ≡ ranked 0 addrs ++ (ranked 1 addrs ++ (ranked 2 addrs ++ (ranked 3 addrs ++ [])))
    nested = simp (append_assoc, append-nil)

abbrev pub texts : List Multiaddr → List Text
texts addrs = map (λ a. a.string) addrs

contains-append :
    (x : Text) (xs ys : List Text) → contains x (xs ++ ys) ≡ (contains x xs || contains x ys)
contains-append x [] ys = refl
contains-append x (y ∷ xs) ys = ground (arith, contains-append x xs ys)

texts-append : (xs ys : List Multiaddr) → texts (xs ++ ys) ≡ texts xs ++ texts ys
texts-append [] ys = refl
texts-append (x ∷ xs) ys = ap (λ l. x.string ∷ l) (texts-append xs ys)

contains-merge_new :
    (x : Text) (seen : List Text) (stored : List Multiaddr)
    → contains x (texts (merge_new seen stored))
      ≡ (contains x (texts stored) && not (contains x seen))
unfolding merge_new
contains-merge_new x seen [] = refl
contains-merge_new x seen (a ∷ stored) = ground (
  arith,
  contains-merge_new x seen stored,
  contains-merge_new x (a.string ∷ seen) stored,
  list_beq_iff a.string x,
)

merged :
    (x : Text) (found stored : List Multiaddr)
    → contains x (texts (merge_addresses found stored))
      ≡ (contains x (texts found) || contains x (texts stored))
unfolding merge_addresses
merged x found stored =
    ap (contains x) (texts-append found (merge_new (texts found) stored))
    ∙ contains-append x (texts found) (texts (merge_new (texts found) stored))
    ∙ ap (λ b. contains x (texts found) || b) (contains-merge_new x (texts found) stored)
    ∙ absorbed (contains x (texts found)) (contains x (texts stored))
  where
    absorbed : (a b : Bool) → (a || (b && not a)) ≡ (a || b)
    absorbed a b = ground arith

-- The order in which addresses are tried, and that none is lost.
pub record Tried (found stored tried : List Multiaddr) : Type 0 where
  pub ascending : Ascending tried
  pub stable : (k : ℕ) → ranked k tried ≡ ranked k (merge_addresses found stored)
  pub complete :
      (x : Text)
      → contains x (texts (merge_addresses found stored))
        ≡ (contains x (texts found) || contains x (texts stored))

-- The addresses found with the admin and those of the peerstore, merged and sorted: private ones
-- come before public ones and QUIC before the rest, addresses of one rank keep their order, and an
-- address is among the merged ones just if it is in one of the two lists.
pub sort-merge-Tried :
    (found stored : List Multiaddr)
    → Tried found stored (sort_addresses_local_first (merge_addresses found stored))
sort-merge-Tried found stored = record {
  ascending = sorted-Ascending (merge_addresses found stored);
  stable = λ k. sorted_stable k (merge_addresses found stored);
  complete = λ x. merged x found stored;
}

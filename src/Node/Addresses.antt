-- ===== src/Node/Addresses.antt =====
-- The addresses of a peer list, and what the helpers of election.go do to them.
use election_go.Base.{
  ◌≡◌, refl, ap, String, List, [], ◌∷◌, some, Option-cases, inl, inr, arith, Bool-cases, str_eq,
}
use election_go.Engine.{Bytes, Peer}
use election_go.Node.Peers.{peers_from_strings, apply_self_metadata, update_metadata}

abbrev pub addresses : List Peer → List String
addresses [] = []
addresses (p ∷ peers) = p.address ∷ addresses peers

pub peers_from_strings-addresses :
    (addrs : List String) → addresses (peers_from_strings addrs) ≡ addrs
unfolding peers_from_strings
peers_from_strings-addresses [] = refl
peers_from_strings-addresses (a ∷ addrs) = ap (◌∷◌ a) (peers_from_strings-addresses addrs)

pub apply_self_metadata-addresses :
    (self : String) (metadata : Bytes) (peers : List Peer)
    → addresses (apply_self_metadata self metadata peers) ≡ addresses peers
unfolding apply_self_metadata
apply_self_metadata-addresses self m [] = refl
apply_self_metadata-addresses self m (p ∷ peers) =
    let rest = apply_self_metadata-addresses self m peers in
    elim (Bool-cases (str_eq p.address self)) [
      | inl e ↦ rw e refl
      | inr e ↦ rw e (ap (◌∷◌ p.address) rest)
    ]

pub update_metadata-addresses :
    (address : String) (metadata : Bytes) (peers new : List Peer)
    → update_metadata address metadata peers ≡ some new
    → addresses new ≡ addresses peers
unfolding update_metadata
update_metadata-addresses a m [] new e = cc
update_metadata-addresses a m (p ∷ peers) new e = elim (Option-cases (update_metadata a m peers)) [
  | inl n ↦ ground (arith, n)
  | inr y ↦ ground (arith, y.1, update_metadata-addresses a m peers y.0 y.1)
]

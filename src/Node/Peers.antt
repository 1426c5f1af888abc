-- ===== src/Node/Peers.antt =====
-- The peer list helpers of election.go. A slice that is changed in place is returned.
use election_go.Base.{
  ℕ, ◌+◌, ◌/◌, ◌%◌, String, List, [], ◌∷◌, map, Option, none, some, length, ◌==◌, str_eq,
  if◌then◌else◌,
}
use election_go.Engine.{Bytes, Bytes-discrete, Peer}
use mathlib.Core.Logic.{ite}

unfoldable pub peers_from_strings : List String → List Peer
peers_from_strings addrs = map (λ addr. record { address = addr; metadata = [] }) addrs

-- The first entry of `self` gets the metadata.
unfoldable pub apply_self_metadata : String → Bytes → List Peer → List Peer
apply_self_metadata self metadata [] = []
apply_self_metadata self metadata (p ∷ peers) =
    if str_eq p.address self
    then record p { metadata = metadata } ∷ peers
    else p ∷ apply_self_metadata self metadata peers

-- The loop that stores the metadata of the first entry with this address: `some` of the new list if
-- it differs from what is there, `none` if nothing changes.
unfoldable pub update_metadata : String → Bytes → List Peer → Option (List Peer)
update_metadata address metadata [] = none
update_metadata address metadata (p ∷ peers) =
    if str_eq p.address address
    then ite (Bytes-discrete p.metadata metadata) none
        (some (record p { metadata = metadata } ∷ peers))
    else elim (update_metadata address metadata peers) [ none ↦ none | some rest ↦ some (p ∷ rest) ]

unfoldable pub quorum_size : List Peer → ℕ
quorum_size peers = if length peers == 0 then 1 else length peers / 2 + 1

-- `draw` is what `rng.Int63` returns; a `min_dur` of 0, for which `%` panics, is left out.
unfoldable pub random_duration : ℕ → ℕ → ℕ
random_duration draw min_dur = min_dur + draw % min_dur

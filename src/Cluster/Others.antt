-- ===== src/Cluster/Others.antt =====
-- The peers that electSelf asks, in a cluster whose members have different names.
use election_go.Base.{
  suc, ◌+◌, ◌≡◌, ◌≤◌, refl, ap, String, str_eq, true, false, List, [], ◌∷◌, arith, length,
  Bool-cases, inl, inr, All, if◌then◌else◌,
}
use election_go.Engine.{Peer}
use election_go.Node.Addresses.{addresses}
use election_go.Node.Peers.{quorum_size}
use election_go.Node.Candidate.{vote_targets}
use election_go.Cluster.{is_member}

abbrev pub others : String → List String → List String
others self [] = []
others self (m ∷ ms) = if str_eq m self then others self ms else m ∷ others self ms

pub vote_targets-others :
    (self : String) (peers : List Peer) → vote_targets self peers ≡ others self (addresses peers)
unfolding vote_targets
vote_targets-others self [] = refl
vote_targets-others self (p ∷ peers) = ground (arith, vote_targets-others self peers)

-- No name stands in the list twice.
abbrev pub AreDistinct : List String → Type 0
AreDistinct [] = Unit {0}
AreDistinct (m ∷ ms) = (is_member m ms ≡ false) × AreDistinct ms

others-is_member :
    (self x : String) (ms : List String)
    → is_member x ms ≡ false
    → is_member x (others self ms) ≡ false
others-is_member self x [] e = refl
others-is_member self x (m ∷ ms) e = ground (arith, e, others-is_member self x ms)

pub others-AreDistinct :
    (self : String) (ms : List String) → AreDistinct ms → AreDistinct (others self ms)
others-AreDistinct self [] d = tt
others-AreDistinct self (m ∷ ms) d = elim (Bool-cases (str_eq m self)) [
  | inl e ↦ rw e (others-AreDistinct self ms d.1)
  | inr e ↦ rw e (others-is_member self m ms d.0, others-AreDistinct self ms d.1)
]

others-absent : (self : String) (ms : List String) → is_member self ms ≡ false → others self ms ≡ ms
others-absent self [] e = refl
others-absent self (m ∷ ms) e = ground (arith, e, others-absent self ms)

-- All but one of the members are others.
pub length-others :
    (self : String) (ms : List String) → AreDistinct ms → length ms ≤ 1 + length (others self ms)
length-others self [] d = omega arith
length-others self (m ∷ ms) d = elim (Bool-cases (str_eq m self)) [
  | inl e ↦
      (let same : m ≡ self = ground (arith, e) in
        rw (e, others-absent self ms (rw same at d.0)) (omega arith))
  | inr e ↦ (let rest = length-others self ms d.1 in rw e (omega arith))
]

abbrev pub IsOther : List String → String → String → Type 0
IsOther members self m = (is_member m members ≡ true) × (str_eq m self ≡ false)

others-within :
    (members : List String) (self : String) (ms : List String)
    → All (λ m. is_member m members ≡ true) ms
    → All (IsOther members self) (others self ms)
others-within members self [] a = tt
others-within members self (m ∷ ms) a = elim (Bool-cases (str_eq m self)) [
  | inl e ↦ rw e (others-within members self ms a.1)
  | inr e ↦ rw e ((a.0, e), others-within members self ms a.1)
]

members-longer :
    (x : String) (ms members : List String)
    → All (λ m. is_member m members ≡ true) ms
    → All (λ m. is_member m (x ∷ members) ≡ true) ms
members-longer x [] members a = tt
members-longer x (m ∷ ms) members a = (ground (arith, a.0), members-longer x ms members a.1)

all_members : (ms : List String) → All (λ m. is_member m ms ≡ true) ms
all_members [] = tt
all_members (m ∷ ms) = (ground arith, members-longer m ms ms (all_members ms))

pub others-IsOther : (self : String) (ms : List String) → All (IsOther ms self) (others self ms)
others-IsOther self ms = others-within ms self ms (all_members ms)

pub length-addresses : (peers : List Peer) → length (addresses peers) ≡ length peers
length-addresses [] = refl
length-addresses (p ∷ peers) = ap suc (length-addresses peers)

-- The votes of all members are a quorum.
pub others-quorum :
    (self : String) (peers : List Peer)
    → AreDistinct (addresses peers)
    → quorum_size peers ≤ 1 + length (others self (addresses peers))
unfolding quorum_size
others-quorum self peers d =
    let n = length-others self (addresses peers) d in let m = length-addresses peers in ground arith

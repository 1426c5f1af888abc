-- ===== src/Command/Listed.antt =====
-- cmd/election/main.go: the peers that `main` makes of a list of addresses, with spaces around them.
use mathlib.Core.HLevel.{⊥_prop}
use mathlib.Core.Logic.Or
use mathlib.Core.List.{Mem, not-mem-nil, mem-cons_self, mem-cons_of_mem, eq-or-mem_of_mem-cons}
use election_go.Base.{
  ◌≡◌, ◌⊎◌, refl, ap, ◌∙◌, subst, ◌==◌, Bool-cases, inl, inr, true, false, List, [], ◌∷◌, ◌++◌, map,
  All, arith,
}
use election_go.Command.Peers.{
  Text, comma, text_eq, is_space, trim_left, trim_right, trim_space, split, append_peer, trim_all,
  parse_peers, mem, election_peers,
}

-- A part of the argument: an address or nothing, with spaces before and after it.
pub record Entry : Type 0 where
  pub before : Text
  pub address : Text
  pub after : Text

abbrev pub AreSpaces : Text → Type 0
AreSpaces t = All (λ c. is_space c ≡ true) t

abbrev pub StartsWord : Text → Type 0
StartsWord [] = Unit {0}
StartsWord (c ∷ cs) = is_space c ≡ false

abbrev pub EndsWord : Text → Type 0
EndsWord [] = Unit {0}
EndsWord (c ∷ []) = is_space c ≡ false
EndsWord (c ∷ d ∷ ds) = EndsWord (d ∷ ds)

-- The spaces are spaces, and the address neither starts nor ends with one and has no comma.
pub record IsEntry (e : Entry) : Type 0 where
  pub before : AreSpaces e.before
  pub after : AreSpaces e.after
  pub starts : StartsWord e.address
  pub ends : EndsWord e.address
  pub whole : All (λ c. (c == comma) ≡ false) e.address

abbrev pub written : Entry → Text
written e = e.before ++ (e.address ++ e.after)

abbrev pub join : List Text → Text
join [] = []
join (a ∷ []) = a
join (a ∷ b ∷ as') = a ++ comma ∷ join (b ∷ as')

-- The addresses of the entries that have one, in order.
abbrev pub addresses : List Entry → List Text
addresses [] = []
addresses (e ∷ es) = elim e.address [ [] ↦ addresses es | c ∷ cs ↦ (c ∷ cs) ∷ addresses es ]

trim_left-append : (pad t : Text) → AreSpaces pad → trim_left (pad ++ t) ≡ trim_left t
unfolding trim_left
trim_left-append [] t p = refl
trim_left-append (c ∷ cs) t p = rw p.0 (trim_left-append cs t p.1)

trim_left-spaces : (pad : Text) → AreSpaces pad → trim_left pad ≡ []
unfolding trim_left
trim_left-spaces [] p = refl
trim_left-spaces (c ∷ cs) p = rw p.0 (trim_left-spaces cs p.1)

trim_right-spaces : (pad : Text) → AreSpaces pad → trim_right pad ≡ []
unfolding trim_right
trim_right-spaces [] p = refl
trim_right-spaces (c ∷ cs) p = rw (trim_right-spaces cs p.1, p.0) refl

trim_right-append : (a pad : Text) → EndsWord a → AreSpaces pad → trim_right (a ++ pad) ≡ a
unfolding trim_right
trim_right-append [] pad e p = trim_right-spaces pad p
trim_right-append (c ∷ []) pad e p = rw (trim_right-spaces pad p, e) refl
trim_right-append (c ∷ d ∷ ds) pad e p = rw (trim_right-append (d ∷ ds) pad e p) refl

trim_left-word :
    (a pad : Text)
    → StartsWord a
    → AreSpaces pad
    → trim_right (trim_left (a ++ pad)) ≡ trim_right (a ++ pad)
unfolding trim_left trim_right
trim_left-word [] pad s p = rw (trim_left-spaces pad p, trim_right-spaces pad p) refl
trim_left-word (c ∷ cs) pad s p = rw s refl

trim_space-written : (e : Entry) → IsEntry e → trim_space (written e) ≡ e.address
trim_space-written e v =
    ap trim_right (trim_left-append e.before (e.address ++ e.after) v.before)
    ∙ (trim_left-word e.address e.after v.starts v.after
        ∙ trim_right-append e.address e.after v.ends v.after)

abbrev IsWhole : Text → Type 0
IsWhole t = All (λ c. (c == comma) ≡ false) t

spaces-IsWhole : (pad : Text) → AreSpaces pad → IsWhole pad
unfolding is_space
spaces-IsWhole [] p = tt
spaces-IsWhole (c ∷ cs) p = (ground (arith, p.0), spaces-IsWhole cs p.1)

append-IsWhole : (a b : Text) → IsWhole a → IsWhole b → IsWhole (a ++ b)
append-IsWhole [] b v w = w
append-IsWhole (c ∷ cs) b v w = (v.0, append-IsWhole cs b v.1 w)

written-IsWhole : (e : Entry) → IsEntry e → IsWhole (written e)
written-IsWhole e v =
    append-IsWhole e.before (e.address ++ e.after) (spaces-IsWhole e.before v.before)
      (append-IsWhole e.address e.after v.whole (spaces-IsWhole e.after v.after))

split_last : (a : Text) → IsWhole a → split comma a ≡ a ∷ []
unfolding split
split_last [] w = refl
split_last (c ∷ cs) w = ground (arith, split_last cs w.1)

split-append : (a rest : Text) → IsWhole a → split comma (a ++ comma ∷ rest) ≡ a ∷ split comma rest
unfolding split
split-append [] rest w = refl
split-append (c ∷ cs) rest w = ground (arith, split-append cs rest w.1)

-- What the loop makes of the parts of an argument.
trim_all-entry :
    (e : Entry) (es : List Entry) (ts : List Text)
    → IsEntry e
    → trim_all ts ≡ addresses es
    → trim_all (written e ∷ ts) ≡ addresses (e ∷ es)
unfolding trim_all
trim_all-entry e es ts v rest = rw (trim_space-written e v, rest) (appended e.address)
  where
    appended :
        (a : Text)
        → append_peer a (addresses es)
          ≡ elim a as (λ _. List Text) [ [] ↦ addresses es | c ∷ cs ↦ (c ∷ cs) ∷ addresses es ]
    appended [] = refl
    appended (c ∷ cs) = refl

trim_all-none : trim_all [] ≡ []
unfolding trim_all
trim_all-none = refl

no_parts : trim_all (split comma []) ≡ []
unfolding trim_all split trim_left trim_right
no_parts = refl

parse_peers-join :
    (es : List Entry) → All IsEntry es → parse_peers (join (map written es)) ≡ addresses es
unfolding parse_peers
parse_peers-join [] v = no_parts
parse_peers-join (e ∷ []) v =
    ap trim_all (split_last (written e) (written-IsWhole e v.0))
    ∙ trim_all-entry e [] [] v.0 trim_all-none
parse_peers-join (e ∷ f ∷ es) v =
    let ts = split comma (join (map written (f ∷ es))) in
    ap trim_all (split-append (written e) (join (map written (f ∷ es))) (written-IsWhole e v.0))
    ∙ trim_all-entry e (f ∷ es) ts v.0 (parse_peers-join (f ∷ es) v.1)

text_eq_refl : (a : Text) → text_eq a a ≡ true
text_eq_refl [] = refl
text_eq_refl (c ∷ cs) = ground (arith, text_eq_refl cs)

text_eq-same : (a b : Text) → text_eq a b ≡ true → a ≡ b
text_eq-same [] [] e = refl
text_eq-same [] (d ∷ ds) e = cc
text_eq-same (c ∷ cs) [] e = cc
text_eq-same (c ∷ cs) (d ∷ ds) e =
    let same : cs ≡ ds = text_eq-same cs ds (ground (arith, e)) in
    let first : c ≡ d = ground (arith, e) in rw (first, same) refl

mem-Mem : (t : Text) (ps : List Text) → mem t ps ≡ true → Mem t ps
unfolding mem
mem-Mem t [] e = cc
mem-Mem t (p ∷ ps) e = elim (Bool-cases (text_eq p t)) [
  | inl q ↦ subst (λ x. Mem x (p ∷ ps)) (text_eq-same p t q) mem-cons_self
  | inr q ↦
      (let rest : mem t ps ≡ true = ground (arith, e, q) in mem-cons_of_mem p (mem-Mem t ps rest))
]

mem-absent : (t : Text) (ps : List Text) → mem t ps ≡ false → ¬ Mem t ps
unfolding mem
mem-absent t [] e m = not-mem-nil m
mem-absent t (p ∷ ps) e m =
    Or.elim ⊥_prop (eq-or-mem_of_mem-cons m)
      (λ s. let same = rw s at (text_eq_refl t) in ground (arith, e, same))
      (λ r. let rest : mem t ps ≡ false = ground (arith, e) in mem-absent t ps rest r)

-- The peers that `main` hands to `NewNode` are the addresses that its argument lists, in order, without
-- the spaces around them and without the parts that are empty, and with the node's own address put first
-- if it is not among them.
pub election_peers-listed :
    (self : Text) (es : List Entry)
    → All IsEntry es
    → let peers = election_peers self (join (map written es)) in
      (Mem self (addresses es) × (peers ≡ addresses es))
      ⊎ ((¬ Mem self (addresses es)) × (peers ≡ self ∷ addresses es))
unfolding election_peers
election_peers-listed self es v =
    rw (parse_peers-join es v) (elim (Bool-cases (mem self (addresses es))) [
      | inl e ↦ rw e (inl (mem-Mem self (addresses es) e, refl))
      | inr e ↦ rw e (inr (mem-absent self (addresses es) e, refl))
    ])

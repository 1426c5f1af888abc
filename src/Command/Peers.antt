-- ===== src/Command/Peers.antt =====
-- cmd/election/main.go: the peer list that `main` builds from its arguments. A text is the list of
-- its code points.
use election_go.Base.{ℕ, leb, ◌==◌, Bool, true, false, ◌&&◌, ◌||◌, List, [], ◌∷◌, if◌then◌else◌}

abbrev pub Text : Type 0
Text = List ℕ

abbrev pub comma : ℕ
comma = 44

abbrev pub text_eq : Text → Text → Bool
text_eq [] [] = true
text_eq (x ∷ a) (y ∷ b) = x == y && text_eq a b
text_eq _ _ = false

-- `unicode.IsSpace`
unfoldable pub is_space : ℕ → Bool
is_space c =
    (leb 9 c && leb c 13)
    || ((c == 32)
        || ((c == 0x85)
            || ((c == 0xA0)
                || ((c == 0x1680)
                    || ((leb 0x2000 c && leb c 0x200A)
                        || ((c == 0x2028)
                            || ((c == 0x2029)
                                || ((c == 0x202F) || ((c == 0x205F) || (c == 0x3000))))))))))

unfoldable pub trim_left : Text → Text
trim_left [] = []
trim_left (c ∷ cs) = let rest = trim_left cs in if is_space c then rest else c ∷ cs

abbrev keep_space : ℕ → Text → Text
keep_space c [] = if is_space c then [] else c ∷ []
keep_space c (d ∷ ds) = c ∷ d ∷ ds

unfoldable pub trim_right : Text → Text
trim_right [] = []
trim_right (c ∷ cs) = keep_space c (trim_right cs)

-- `strings.TrimSpace`
abbrev pub trim_space : Text → Text
trim_space t = trim_right (trim_left t)

abbrev extend_first : ℕ → List Text → List Text
extend_first c [] = (c ∷ []) ∷ []
extend_first c (t ∷ ts) = (c ∷ t) ∷ ts

-- `strings.Split` at one character.
unfoldable pub split : ℕ → Text → List Text
split sep [] = [] ∷ []
split sep (c ∷ cs) = let rest = split sep cs in if c == sep then [] ∷ rest else extend_first c rest

abbrev pub append_peer : Text → List Text → List Text
append_peer [] ps = ps
append_peer (c ∷ cs) ps = (c ∷ cs) ∷ ps

-- The loop that trims the parts and leaves out the empty ones.
unfoldable pub trim_all : List Text → List Text
trim_all [] = []
trim_all (t ∷ ts) = append_peer (trim_space t) (trim_all ts)

unfoldable pub parse_peers : Text → List Text
parse_peers arg = trim_all (split comma arg)

unfoldable pub mem : Text → List Text → Bool
mem t [] = false
mem t (p ∷ ps) = let rest = mem t ps in if text_eq p t then true else rest

unfoldable pub election_peers : Text → Text → List Text
election_peers self arg =
    let peers = parse_peers arg in if mem self peers then peers else self ∷ peers

-- ===== src/Node/Answers.antt =====
-- What the results of the vote requests of electSelf say, whatever the code makes of them.
use election_go.Base.{ℕ, ◌+◌, ◌≡◌, ◌≤◌, refl, Bool, false, List, [], ◌∷◌, arith, if◌then◌else◌}
use election_go.Engine.{SendResult, failed, replied, Response, vote_resp}
use election_go.Node.Candidate.{vote_answer}

abbrev grants : Response → Bool
grants (vote_resp v) = v.granted
grants _ = false

-- A reply that carries a vote, which is granted. A request that failed and a reply of another kind
-- grant nothing.
abbrev pub is_yea : SendResult → Bool
is_yea failed = false
is_yea (replied r) = grants r.response

abbrev pub yeas : List SendResult → ℕ
yeas [] = 0
yeas (r ∷ rs) = (if is_yea r then 1 else 0) + yeas rs

abbrev IsCurrent : ℕ → Response → Type 0
IsCurrent term (vote_resp v) = v.term ≤ term
IsCurrent term _ = Unit {0}

-- No vote among the replies is of a later term.
abbrev pub AreCurrent : ℕ → List SendResult → Type 0
AreCurrent term [] = Unit {0}
AreCurrent term (failed ∷ rs) = AreCurrent term rs
AreCurrent term (replied r ∷ rs) = IsCurrent term r.response × AreCurrent term rs

pub vote_answer-is_yea : (term : ℕ) (r : SendResult) → (vote_answer term r).granted ≡ is_yea r
unfolding vote_answer
vote_answer-is_yea term failed = refl
vote_answer-is_yea term (replied r) = ground arith

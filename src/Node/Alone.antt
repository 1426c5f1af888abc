-- ===== src/Node/Alone.antt =====
-- `run` of election.go on a node that is alone in its cluster.
pub mod Start
use election_go.Base.{ℕ, ◌+◌, ◌≡◌, ◌≤◌, refl, ap, ◌∙◌, true, [], arith, length}
use election_go.Node.State.{leader, Node}
use election_go.Node.Peers.{quorum_size}
use election_go.Node.World.{World, timer_set, timer_cancelled, emit, yield, after, cancel, int63}
use election_go.Node.Follower.{enter_follower, is_alone}
use election_go.Node.Candidate.{count_started, enter_candidate}
use election_go.Node.Elections.{yield-idle}

-- The node knows no peer but itself and no leader, no other coroutine runs, and its last timer is `n`.
pub record IsAlone (n : ℕ) (w : World) : Type 0 where
  pub idle : w.ticks ≡ []
  pub alone : is_alone w.node ≡ true
  pub silent : w.node.current_leader ≡ ""
  pub enough : w.node.conf.minimum_quorum ≤ length w.node.current_peers
  pub last : w.last_timer ≡ n

-- `w'` differs from `w` in other parts, and its last timer is `m`.
pub kept-IsAlone :
    (n m : ℕ) (w w' : World)
    → IsAlone n w
    → w'.ticks ≡ w.ticks
    → is_alone w'.node ≡ is_alone w.node
    → w'.node.current_leader ≡ w.node.current_leader
    → w'.node.conf ≡ w.node.conf
    → w'.node.current_peers ≡ w.node.current_peers
    → w'.last_timer ≡ m
    → IsAlone m w'
kept-IsAlone n m w w' a t s l c p k = record {
  idle = t ∙ a.idle;
  alone = s ∙ a.alone;
  silent = l ∙ a.silent;
  enough = rw (c, p) a.enough;
  last = k;
}

yield-IsAlone : (n : ℕ) (w : World) → IsAlone n w → IsAlone n (yield w)
yield-IsAlone n w a = rw (yield-idle w a.idle) a

after-IsAlone :
    (n d : ℕ) (w : World) → IsAlone n w → ((after d w).0 ≡ n + 1) × IsAlone (n + 1) (after d w).1
unfolding after emit
after-IsAlone n d w a =
    let v : World =
      emit (timer_set (w.last_timer + 1) d) (record w { last_timer = w.last_timer + 1 }) in
    let next = ap (λ k. k + 1) a.last in
    (next, yield-IsAlone (n + 1) v (kept-IsAlone n (n + 1) w v a refl refl refl refl refl next))

pub cancel-IsAlone : (n id : ℕ) (w : World) → IsAlone n w → IsAlone n (cancel id w)
unfolding cancel emit
cancel-IsAlone n id w a =
    let v : World = emit (timer_cancelled id) w in
    yield-IsAlone n v (kept-IsAlone n n w v a refl refl refl refl refl a.last)

int63-IsAlone : (n : ℕ) (w : World) → IsAlone n w → IsAlone n (int63 w).1
unfolding int63
int63-IsAlone n w a =
    kept-IsAlone n n w (int63 w).1 a (ground arith) (ground arith) (ground arith) (ground arith)
      (ground arith) (ground (arith, a.last))

pub enter_follower-IsAlone :
    (n : ℕ) (w : World)
    → IsAlone n w
    → let (v, w') = enter_follower w in
      (v.heartbeat_timer ≡ n + 1) × (v.no_peers_timer ≡ n + 1 + 1) × IsAlone (n + 1 + 1) w'
unfolding enter_follower
enter_follower-IsAlone n w a =
    let h = after-IsAlone n _ _ (int63-IsAlone n w a) in
    let p = after-IsAlone (n + 1) _ _ h.1 in (h.0, p.0, p.1)

is_alone-kept : (w : World) → is_alone (count_started w).node ≡ is_alone w.node
unfolding is_alone
is_alone-kept w = refl

pub enter_candidate-IsAlone :
    (n : ℕ) (w : World)
    → IsAlone n w
    → let (v, w') = enter_candidate w in
      (v.vote_timer ≡ n + 1)
      × (v.granted_votes ≡ 0)
      × (v.votes_needed ≡ quorum_size w'.node.current_peers)
      × IsAlone (n + 1 + 1) w'
unfolding enter_candidate
enter_candidate-IsAlone n w a =
    let b = kept-IsAlone n n w (count_started w) a refl (is_alone-kept w) refl refl refl a.last in
    let h = after-IsAlone n _ _ (int63-IsAlone n _ b) in
    let p = after-IsAlone (n + 1) _ _ (int63-IsAlone (n + 1) _ h.1) in (h.0, refl, refl, p.1)

-- A node that is alone needs one vote.
pub is_alone-quorum_size : (n : Node) → is_alone n ≡ true → quorum_size n.current_peers ≡ 1
unfolding is_alone quorum_size
is_alone-quorum_size n a = ground (arith, a)

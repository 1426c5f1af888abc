-- ===== src/Cluster/Members.antt =====
-- Every turn keeps all nodes of the cluster sound, the one whose turn it is and the others.
use election_go.Base.{
  ℕ, ◌≡◌, ◌≢◌, inl, inr, subst, String, str_eq, true, false, List, arith, Bool-cases,
}
use election_go.Node.State.{Vote}
use election_go.Node.World.{World}
use election_go.Node.Run.{Phase}
use election_go.Cluster.{
  Cluster, Turn, take_turn, is_member, put, note, note_fired, after_turn, IsTurn,
}
use election_go.Cluster.Counts.{AreNoted, Extends, IsElected-mono}
use election_go.Cluster.Sound.{IsSound}
use election_go.Cluster.Turns.{cast-Extends, next-IsSound, next-AreNoted}

-- The turn of another node.
bystander-IsSound :
    (members : List String) (cast : String → ℕ → String) (fired : List ℕ) (id other : String)
    (v : Vote) (x : Phase × World)
    → str_eq other id ≡ false
    → other ≢ ""
    → Extends cast (note id v cast)
    → IsSound members cast fired other x
    → IsSound members (note id v cast) fired other x
bystander-IsSound members cast fired id other v x apart named e s = record {
  matches = s.matches;
  grouped = s.grouped;
  behind = s.behind;
  noted = λ t q. ground (arith, s.noted t, apart, q);
  led = λ r. IsElected-mono members cast (note id v cast) other _ e named (s.led r);
  campaign = s.campaign;
}

-- The votes that were given are on record, and all members are sound.
pub record AllSound (members : List String) (c : Cluster) : Type 0 where
  pub noted : AreNoted c.given c.cast
  pub sound :
      (id : String)
      → is_member id members ≡ true
      → IsSound members c.cast (c.fired id) id (c.nodes id)

abbrev pub AllNamed : List String → Type 0
AllNamed members = (id : String) → is_member id members ≡ true → id ≢ ""

pub after_turn-AllSound :
    (members : List String) (id : String) (t : Turn) (c : Cluster)
    → AllNamed members
    → IsTurn members id t c
    → AllSound members c
    → AllSound members (after_turn id t c)
unfolding after_turn
after_turn-AllSound members id t c named turn all =
    let s = all.sound id turn.member in
    let own = named id turn.member in
    let x = take_turn t (c.nodes id) in
    let fired = note_fired t.event.kind t.event.timer_id (c.fired id) in
    let cast = note id x.1.node.vote c.cast in
    let e = cast-Extends members id t c own turn all.noted s in
    let itself : str_eq id id ≡ true = ground arith in
    record {
      noted = next-AreNoted members id t c own turn all.noted s;
      sound = λ other m. elim (Bool-cases (str_eq other id)) [
        | inl q ↦
            let same : id ≡ other = ground (arith, q) in
            subst (λ i. IsSound members cast (put id fired c.fired i) i (put id x c.nodes i)) same
              (rw itself (next-IsSound members id t c own turn all.noted s))
        | inr q ↦ rw q (
            bystander-IsSound members c.cast (c.fired other) id other x.1.node.vote (c.nodes other)
              q (named other m) e (all.sound other m))
      ];
    }

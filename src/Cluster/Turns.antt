-- ===== src/Cluster/Turns.antt =====
-- The turn of a node keeps the node sound, and the votes that were given on record.
use election_go.Base.{
  ℕ, ◌≡◌, ◌≢◌, inl, inr, refl, sym, ap, ◌∙◌, subst, String, Bool, false, List, [], ◌∷◌, arith, ltb,
  length,
}
use native.Mathlib.Nat.{le_refl}
use election_go.Node.State.{candidate, Node, Vote}
use election_go.Node.Addresses.{addresses}
use election_go.Node.World.{World}
use election_go.Node.Candidate.{CandidateVars, nominate, on_vote_timer}
use election_go.Node.Run.{
  Phase, in_follower, in_candidate, in_leader, ended, end_candidate, receive,
}
use election_go.Node.Steady.{yield-Steady}
use election_go.Node.Phases.{Matches, receive-Matches, yield-Matches}
use election_go.Node.Published.{AnyRequest}
use election_go.Node.Rule.Steps.{AtElection, receive-except, receive-Closed}
use election_go.Node.Votes.{Since, Since-Closed, Room-Spends}
use election_go.Cluster.{
  Cluster, Turn, facing, take_turn, note, note_given, granted_request, note_fired, IsTurn,
}
use election_go.Cluster.Calm.{yield-calm, yield-ballots}
use election_go.Cluster.Counts.{
  electorate, electorate-addresses, AreNoted, AreGiven-AreHonest, Extends, IsElected-mono,
  AreHonest-mono, same_quorum,
}
use election_go.Cluster.Recorded.{vote_timer-vote}
use election_go.Cluster.Campaign.{Waits, Comes, IsCampaign, receive-Comes}
use election_go.Cluster.Grouped.{IsGrouped, IsGrouped-Closed, IsGrouped-Spends}
use election_go.Cluster.Led.{IsLed-Closed}
use election_go.Cluster.Election.{
  majority, supporters, Leads, receive-vote_timer, on_vote_timer-Leads,
}
use election_go.Cluster.Given.{granted_request-voted, note_given-AreNoted}
use election_go.Cluster.Sound.{IsSound, note-Extends, note-IsNoted}

note-nominate :
    (id : String) (n : Node) (v : Vote) (cast : String → ℕ → String)
    → id ≢ ""
    → n.self ≡ id
    → v ≡ (nominate n).vote
    → note id v cast id (nominate n).current_term ≡ id
unfolding nominate
note-nominate id n v cast named own e = ground (arith, e, own)

module _ (members : List String) (id : String) (t : Turn) (c : Cluster) (named : id ≢ "")
    (turn : IsTurn members id t c) (noted : AreNoted c.given c.cast)
    (s : IsSound members c.cast (c.fired id) id (c.nodes id)) where
  abbrev phase : Phase
  phase = (c.nodes id).0

  abbrev before : World
  before = (c.nodes id).1

  abbrev asked : World
  asked = record before { ticks = t.ticks; draws = t.draws; ballots = t.answers ∷ [] }

  abbrev here : World
  here = facing t before

  abbrev next : Phase × World
  next = take_turn t (c.nodes id)

  abbrev cast' : String → ℕ → String
  cast' = note id next.1.node.vote c.cast

  here-Matches : Matches (phase, here)
  here-Matches = yield-Matches phase asked s.matches

  here-IsGrouped : IsGrouped members id here
  here-IsGrouped =
      (IsGrouped-Closed members id).yielded asked
        (record { named = s.grouped.named; peers = s.grouped.peers })

  here-Since : Since before.node here
  here-Since =
      (Since-Closed before.node).yielded asked
        (record { calm = turn.calm; behind = s.behind; grown = le_refl _; kept = inr (inl refl) })

  next-Since : Since before.node next.1
  next-Since =
      receive-Closed (Since-Closed before.node) (Room-Spends before.node) t.event phase here
        here-Matches (tt, λ _. tt) (here-Since, turn.room)

  next-IsGrouped : IsGrouped members id next.1
  next-IsGrouped =
      receive-Closed (IsGrouped-Closed members id) (IsGrouped-Spends members id) t.event phase here
        here-Matches turn.admitted here-IsGrouped

  pub cast-Extends : Extends c.cast cast'
  cast-Extends = note-Extends id before.node.vote next.1.node.vote c.cast s.noted next-Since.kept

  here-Leads : Leads members cast' id here
  here-Leads =
      let (e, calm) = yield-calm asked turn.calm in
      record {
        calm = calm;
        led = λ r.
            let led = s.led (sym (yield-Steady asked).current_role ∙ r) in
            IsElected-mono members c.cast cast' id here.node.current_term cast-Extends named
              (rw e led);
      }

  own_vote :
      (v : CandidateVars)
      → next ≡ end_candidate (on_vote_timer v here)
      → ltb (length here.node.current_peers) here.node.conf.minimum_quorum ≡ false
      → cast' id (nominate here.node).current_term ≡ id
  own_vote v after e =
      let recorded : next.1.node.vote ≡ (nominate here.node).vote =
        ap (λ (x : Phase × World). x.1.node.vote) after ∙ vote_timer-vote v here e in
      note-nominate id here.node next.1.node.vote c.cast named here-IsGrouped.named recorded

  abbrev AtBallot : Phase → Type 0
  AtBallot p = AtElection (Leads members cast' id) t.event p here

  vote_timer-Leads : (p : Phase) → p ≡ phase → AtBallot p
  vote_timer-Leads (in_follower v) same = tt
  vote_timer-Leads (in_leader v) same = tt
  vote_timer-Leads ended same = tt
  vote_timer-Leads (in_candidate v) same = λ k q.
      let waits : Waits (majority members) (c.fired id) v =
        subst (IsCampaign (majority members) (c.fired id)) (sym same) s.campaign in
      let role : here.node.current_role ≡ candidate =
        subst (λ x. Matches (x, here)) (sym same) here-Matches in
      let after : next ≡ end_candidate (on_vote_timer v here) =
        ap (λ x. receive t.event x here) (sym same) ∙ receive-vote_timer t.event v here k q in
      let term = (nominate here.node).current_term in
      on_vote_timer-Leads members cast' id v here t.answers here-IsGrouped.named
        (record {
          ballots = yield-ballots asked;
          role = role;
          peers = here-IsGrouped.peers;
          member = turn.member;
          needs = waits.0;
          none_counted = elim waits.1 [
            | inl f ↦ absurd (let once = turn.once k in ground (arith, f, once, q))
            | inr z ↦ z
          ];
          honest =
              AreHonest-mono c.cast cast' id term _ t.answers cast-Extends named
                (AreGiven-AreHonest c.given c.cast id term _ t.answers noted named turn.honest);
          own = λ e. own_vote v after e;
        })
        here-Leads

  next-Leads : Leads members cast' id next.1
  next-Leads =
      receive-except (IsLed-Closed AnyRequest (majority members) (supporters members cast' id))
        t.event phase here (tt, λ _. tt) here-Leads (vote_timer-Leads phase refl)

  campaign-next :
      (x : Phase × World) (fired : List ℕ)
      → addresses x.1.node.current_peers ≡ members
      → Comes (Waits (majority members) fired) x
      → IsCampaign (majority members) fired x.0
  campaign-next (in_candidate v, w) fired peers (inl (q, z)) =
      let same =
        same_quorum w.node.current_peers (electorate members)
          (peers ∙ sym (electorate-addresses members)) in
      (q ∙ same, inr z)
  campaign-next (in_candidate v, w) fired peers (inr k) = k
  campaign-next (in_follower v, w) fired peers k = tt
  campaign-next (in_leader v, w) fired peers k = tt
  campaign-next (ended, w) fired peers k = tt

  abbrev fired' : List ℕ
  fired' = note_fired t.event.kind t.event.timer_id (c.fired id)

  pub next-IsSound : IsSound members cast' fired' id next
  next-IsSound = record {
    matches = receive-Matches t.event phase here here-Matches;
    grouped = next-IsGrouped;
    behind = next-Since.behind;
    noted = note-IsNoted id before.node.vote next.1.node.vote c.cast s.noted next-Since.kept;
    led = next-Leads.led;
    campaign =
        campaign-next next fired' next-IsGrouped.peers
          (receive-Comes (majority members) (c.fired id) t.event phase here turn.once s.campaign);
  }

  abbrev given' : String → ℕ → String → Bool
  given' =
      note_given id (granted_request t.event.kind t.event.rpc_req.request phase here.node) c.given

  pub next-AreNoted : AreNoted given' cast'
  next-AreNoted =
      note_given-AreNoted id (granted_request t.event.kind t.event.rpc_req.request phase here.node)
        next.1.node.vote c.given c.cast noted cast-Extends
        (λ req e. granted_request-voted t.event phase here req here-Since.behind e)

-- ===== src/Raft/Node/Election.antt =====
-- Elections: who wins with which votes, and how often a node votes.
pub mod Ballots
pub mod Votes
use prodinamik_engine.Prelude.{
  ℕ, zero, suc, ◌+◌, ◌*◌, ◌/◌, ◌≤◌, ◌<◌, ◌≡◌, refl, String, Bool, true, false, ◌&&◌, ◌||◌, List, [],
  ◌∷◌, arith, ltb, str_eq, if◌then◌else◌, length, contains, discard, eq_iff, Bool-cases, inl, inr,
}
use prodinamik_engine.Raft.Types.{NodeRole}
use prodinamik_engine.Raft.Node.{Node, count_votes, become_candidate, become_leader}

-- The nodes whose vote a candidate counts: itself, and the peers that grant it.
abbrev pub votes_of : String → (String → Bool) → String → Bool
votes_of self grant x = str_eq self x || grant x

count_both :
    (f g : String → Bool) (ids : List String)
    → count_votes f ids + count_votes g ids ≤ length ids + count_votes (λ x. f x && g x) ids
unfolding count_votes
count_both f g [] = omega arith
count_both f g (x ∷ ids) = ground (arith, count_both f g ids)

count_pos :
    (f : String → Bool) (ids : List String)
    → 0 < count_votes f ids
    → (x : String) × (contains ids x ≡ true) × (f x ≡ true)
unfolding count_votes
count_pos f [] h = elim h [ ]
count_pos f (x ∷ ids) h = elim (Bool-cases (f x)) [
  | inl t ↦ (x, ground (arith, eq_iff x x), t)
  | inr e ↦ let (y, there, t) = count_pos f ids (ground (arith, e)) in (y, ground arith, t)
]

count_self :
    (self : String) (grant : String → Bool) (ids : List String)
    → count_votes (votes_of self grant) ids
      ≡ count_votes (str_eq self) ids + count_votes grant (discard self ids)
unfolding count_votes discard
count_self self grant [] = omega arith
count_self self grant (x ∷ ids) =
    ground (arith, count_self self grant ids, eq_iff self x, eq_iff x self)

length-discard_self :
    (self : String) (ids : List String)
    → length ids ≡ count_votes (str_eq self) ids + length (discard self ids)
unfolding count_votes discard
length-discard_self self [] = omega arith
length-discard_self self (x ∷ ids) =
    ground (arith, length-discard_self self ids, eq_iff self x, eq_iff x self)

-- A candidate leads exactly if its votes, its own included, pass half of its number of peers.
pub wins_iff_votes :
    (now : ℕ) (grant : String → Bool) (n : Node)
    → (become_candidate now grant n).role ≡ (
        if ltb (length n.peers / 2) (1 + count_votes grant n.peers)
        then NodeRole.leader
        else NodeRole.candidate)
unfolding become_candidate become_leader
wins_iff_votes now grant n = ground arith

wins-votes :
    (now : ℕ) (grant : String → Bool) (n : Node)
    → (become_candidate now grant n).role ≡ NodeRole.leader
    → length n.peers / 2 < 1 + count_votes grant n.peers
wins-votes now grant n h = ground (arith, wins_iff_votes now grant n)

-- In a cluster of odd size, `2 * k + 1` nodes with each of the two candidates among them once and
-- the others as its peers: if both candidates become leader, some node of the cluster is counted by
-- both.
pub election_overlap :
    (ids : List String) (k : ℕ) (a b : Node) (now : ℕ) (grant_a grant_b : String → Bool)
    → length ids ≡ 2 * k + 1
    → count_votes (str_eq a.node_id) ids ≡ 1
    → count_votes (str_eq b.node_id) ids ≡ 1
    → a.peers ≡ discard a.node_id ids
    → b.peers ≡ discard b.node_id ids
    → (become_candidate now grant_a a).role ≡ NodeRole.leader
    → (become_candidate now grant_b b).role ≡ NodeRole.leader
    → (x : String) × (contains ids x ≡ true)
      × ((votes_of a.node_id grant_a x && votes_of b.node_id grant_b x) ≡ true)
election_overlap ids k a b now grant_a grant_b size once_a once_b peers_a peers_b wins_a wins_b =
    count_pos (λ x. votes_of a.node_id grant_a x && votes_of b.node_id grant_b x) ids
      (omega (
        arith,
        count_both (votes_of a.node_id grant_a) (votes_of b.node_id grant_b) ids,
        count_self a.node_id grant_a ids,
        count_self b.node_id grant_b ids,
        length-discard_self a.node_id ids,
        length-discard_self b.node_id ids,
        rw peers_a at (wins-votes now grant_a a wins_a),
        rw peers_b at (wins-votes now grant_b b wins_b),
      ))

-- With an odd number of peers, so in a cluster of even size, a candidate becomes leader with the
-- votes of exactly half of the cluster: `k` of `2 * k + 1` peers, and its own.
pub half_wins_even_cluster :
    (now k : ℕ) (grant : String → Bool) (n : Node)
    → length n.peers ≡ 2 * k + 1
    → count_votes grant n.peers ≡ k
    → (become_candidate now grant n).role ≡ NodeRole.leader
half_wins_even_cluster now k grant n size votes = ground (arith, wins_iff_votes now grant n)

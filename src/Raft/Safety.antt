-- ===== src/Raft/Safety.antt =====
-- What no step of a raft node undoes: its term, its vote within a term and its commit index.
-- `Advances` is the relation between the states before and after; its children prove it of the
-- operations of internal/raft/raft.go, up to `Handle` and `tick`.
pub mod Sends
pub mod Transitions
pub mod Campaigns
pub mod Handlers
pub mod LeaderHandlers
pub mod Steps
pub mod Handle
pub mod Depth
pub mod Membership
pub mod Election
use dragonboat.Prelude.{◌≤◌, ◌≡◌, refl, ap, ◌∙◌, ◌≢◌, arith}
use dragonboat.Raft.EntryLog.{EntryLog}
use dragonboat.Raft.Node.{Raft}

-- A later state of the same node: the term has not gone back, within one term a vote once given is
-- kept, and what was committed stays committed.
pub record Advances (r r' : Raft) : Type 0 where
  pub same_node : r'.node_id ≡ r.node_id
  pub same_cluster : r'.cluster_id ≡ r.cluster_id
  pub term_le : r.term ≤ r'.term
  pub vote_kept : r'.term ≡ r.term → r.vote ≢ 0 → r'.vote ≡ r.vote
  pub commit_le : r.log.committed ≤ r'.log.committed

pub Advances-refl : (r : Raft) → Advances r r
Advances-refl r = record {
  same_node = refl;
  same_cluster = refl;
  term_le = omega arith;
  vote_kept = λ _ _. refl;
  commit_le = omega arith;
}

pub Advances-trans : {r s t : Raft} → Advances r s → Advances s t → Advances r t
Advances-trans a b = record {
  same_node = cc (a.same_node, b.same_node);
  same_cluster = cc (a.same_cluster, b.same_cluster);
  term_le = omega arith;
  vote_kept = λ e n. ground (arith, a.vote_kept, b.vote_kept);
  commit_le = omega arith;
}

-- A state that differs in nothing that `Advances` speaks of, nor in the node's role.
pub record Alike (r r' : Raft) : Type 0 where
  pub node_id : r'.node_id ≡ r.node_id
  pub cluster_id : r'.cluster_id ≡ r.cluster_id
  pub term : r'.term ≡ r.term
  pub vote : r'.vote ≡ r.vote
  pub log : r'.log ≡ r.log
  pub state : r'.state ≡ r.state
  pub leader_id : r'.leader_id ≡ r.leader_id

pub Alike-refl : (r : Raft) → Alike r r
Alike-refl r = record {
  node_id = refl;
  cluster_id = refl;
  term = refl;
  vote = refl;
  log = refl;
  state = refl;
  leader_id = refl;
}

pub Alike-trans : {r s t : Raft} → Alike r s → Alike s t → Alike r t
Alike-trans a b = record {
  node_id = b.node_id ∙ a.node_id;
  cluster_id = b.cluster_id ∙ a.cluster_id;
  term = b.term ∙ a.term;
  vote = b.vote ∙ a.vote;
  log = b.log ∙ a.log;
  state = b.state ∙ a.state;
  leader_id = b.leader_id ∙ a.leader_id;
}

pub Advances_of_Alike : {r r' : Raft} → Alike r r' → Advances r r'
Advances_of_Alike {r} {r'} a = record {
  same_node = a.node_id;
  same_cluster = a.cluster_id;
  term_le = omega (arith, a.term);
  vote_kept = λ _ _. a.vote;
  commit_le = omega (arith, ap (λ (l : EntryLog). l.committed) a.log);
}

-- A state with the same term, vote and commit index.
abbrev pub same :
    (r s : Raft)
    → s.node_id ≡ r.node_id
    → s.cluster_id ≡ r.cluster_id
    → s.term ≡ r.term
    → s.vote ≡ r.vote
    → r.log.committed ≤ s.log.committed
    → Advances r s
same r s a b c d e = record {
  same_node = a;
  same_cluster = b;
  term_le = omega (arith, c);
  vote_kept = λ _ _. d;
  commit_le = e;
}

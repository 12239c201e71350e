-- ===== src/Raft/Node/Commit.antt =====
-- oxidedb/raft/node.py: `_update_commit_index`.
pub mod Quorum
use oxide_db.Base.{
  ℕ, suc, ◌+◌, ◌-◌, ◌/◌, Bool, true, false, ◌&&◌, Option, none, some, List, [], ◌∷◌, ◌++◌, map, ltb,
  leb, ◌==◌, if◌then◌else◌, length, get_elem?,
}
use oxide_db.Raft.Disk.{LogEntry}
use oxide_db.Raft.Node.{Node, StateMachine, last_log_index, entry_at, save_commit_index}
use oxide_db.Raft.Node.Apply.{apply_committed_entries}

unfoldable pub insert_sorted : ℕ → List ℕ → List ℕ
insert_sorted x [] = x ∷ []
insert_sorted x (y ∷ l) = let rest = insert_sorted x l in if leb x y then x ∷ y ∷ l else y ∷ rest

-- `sorted(l)`
unfoldable pub sorted : List ℕ → List ℕ
unfolding insert_sorted
sorted [] = []
sorted (x ∷ l) = insert_sorted x (sorted l)

-- `n // 2 + 1` of a group of these peers and the node itself
abbrev pub majority : List ℕ → ℕ
majority peers = (length peers + 1) / 2 + 1

-- whether the entry may be committed by counting: one of the current term
abbrev pub of_term : ℕ → Option LogEntry → Bool
of_term term none = false
of_term term (some e) = e.term == term

module _ {S : Type 0} where
  -- `sorted(self._match_index.values())` with the last index of this node's own log behind it
  unfoldable pub match_indices : Node S → List ℕ
  unfolding sorted
  match_indices n = sorted (map (λ p. p.1) n.match_index) ++ last_log_index n ∷ []

  -- `match_indices[-majority]`, where there are that many
  abbrev pub quorum_index : Node S → Option ℕ
  quorum_index n =
      let found = match_indices n in
      if leb (majority n.peers) (length found)
      then get_elem? found (length found - majority n.peers)
      else none

module _ {S : Type 0} (sm : StateMachine S) where
  abbrev pub commit_to : Option ℕ → Node S → Node S
  commit_to none n = n
  commit_to (some index) n =
      if ltb n.commit_index index && of_term n.current_term (entry_at n index)
      then apply_committed_entries sm (save_commit_index (record n { commit_index = index }))
      else n

  unfoldable pub update_commit_index : Node S → Node S
  unfolding match_indices
  update_commit_index n = commit_to (quorum_index n) n

-- ===== src/Tests/Raft.antt =====
-- Nodes of a group of three at concrete inputs.
use oxide_db.Base.{◌↔◌, ◌-◌, ◌≡◌, ◌⊎◌, refl, true, none, some, List, [], ◌∷◌, arith, take, drop}
use oxide_db.Base.Bytes.{Bytes}
use oxide_db.Raft.Disk
use oxide_db.Raft.Disk.{LogEntry}
use oxide_db.Raft.StateMachine.{succeeded}
use oxide_db.Raft.Node.{
  leader, Node, candidate, StateMachine, RequestVoteRequest, RequestVoteResponse,
  AppendEntriesRequest, last_log_index, last_log_term, entry_in, save_meta,
}
use oxide_db.Raft.Node.Log.{Follows}
use oxide_db.Raft.Node.WellFormed.{WellFormed}
use oxide_db.Raft.Node.Apply.{apply_committed_entries}
use oxide_db.Raft.Node.Apply.Replay.{run_commands, apply_committed_entries-replay}
use oxide_db.Raft.Node.Append.{add_entries, append_entries}
use oxide_db.Raft.Node.Append.Bounds.{append_entries-WellFormed}
use oxide_db.Raft.Node.Append.Matching.{Matched, add_entries-matches}
use oxide_db.Raft.Node.Commit.{update_commit_index}
use oxide_db.Raft.Node.Commit.Quorum.{Counted, update_commit_index-Counted}
use oxide_db.Raft.Node.Election.{
  adopt_term, answer_vote, request_vote, start_election, on_vote_response,
}
use oxide_db.Raft.Node.Leader.Messages.{append_request, copy_of}
use oxide_db.Raft.Node.Leader.Propose.{append_command}
use oxide_db.Raft.Node.Load.{fresh}
use oxide_db.Raft.Node.Steps.{Step, Steps, Steps-WellFormed, append_request-Follows}
use oxide_db.Raft.Node.Votes.Older.{on_vote_response-older}
use oxide_db.Raft.Node.Votes.Grant.{IsFree, UpToDate, request_vote-granted_iff}
use oxide_db.Raft.Node.Votes.Single.{one_vote}

-- a machine that keeps its commands
abbrev machine : StateMachine (List Bytes)
machine = record {
  apply = λ command s. (succeeded, command ∷ s);
  snapshot = λ s. none;
  restore = λ blob s. none;
}

abbrev first : LogEntry
first = record { term = 1; index = 1; command = 65 ∷ [] }

abbrev second : LogEntry
second = record { term = 1; index = 2; command = 66 ∷ [] }

abbrev newer_second : LogEntry
newer_second = record { term = 2; index = 2; command = 67 ∷ [] }

abbrev new_node : Node (List Bytes)
new_node = fresh 1 (2 ∷ 3 ∷ []) [] (some Disk.empty) 0 100

new_node-WellFormed : WellFormed new_node
unfolding fresh
new_node-WellFormed = record {
  follows = tt;
  compacted = omega arith;
  applied = omega arith;
  committed = omega arith;
  saved = (refl, refl);
}

-- a node with two entries, of which nothing is applied yet
abbrev two_entries : Node (List Bytes)
two_entries = record new_node {
  current_term = 1;
  log = first ∷ second ∷ [];
  commit_index = 2;
  storage = some (record Disk.empty { log = first ∷ second ∷ [] });
  match_index = (2, 2) ∷ (3, 1) ∷ [];
}

two_entries-WellFormed : WellFormed two_entries
unfolding fresh
two_entries-WellFormed = record {
  follows = (refl, (refl, tt));
  compacted = omega arith;
  applied = omega arith;
  committed = omega arith;
  saved = (refl, refl);
}

abbrev granted : RequestVoteResponse
granted = record { term = 1; vote_granted = true }

-- elected, leading and with a command of a client
abbrev served : Node (List Bytes)
served =
    (append_command machine (65 ∷ [])
      (on_vote_response machine 2 granted (start_election machine new_node))).1

Steps-WellFormed_example : WellFormed served
Steps-WellFormed_example =
    Steps-WellFormed machine
      (Steps.more (Steps.more (Steps.more Steps.done Step.elect) (Step.voted 2 granted))
        (Step.propose (65 ∷ [])))
      new_node-WellFormed

abbrev ask_vote : RequestVoteRequest
ask_vote = record { term = 1; candidate_id = 2; last_log_index = 0; last_log_term = 0 }

abbrev ask_again : RequestVoteRequest
ask_again = record { term = 1; candidate_id = 2; last_log_index = 4; last_log_term = 1 }

one_vote_example : ask_again.candidate_id ≡ ask_vote.candidate_id
unfolding request_vote answer_vote adopt_term save_meta fresh last_log_index last_log_term
    Disk.save_meta
one_vote_example =
    one_vote machine ask_vote ask_again new_node
      (request_vote ask_vote (request_vote ask_vote new_node).0).0 tt refl
      (Steps.more Steps.done (Step.vote ask_vote)) refl refl

apply_committed_entries-replay_example :
    (apply_committed_entries machine two_entries).machine
    ≡ run_commands machine (take (2 - 0) (drop (0 - 0) (first ∷ second ∷ []))) []
unfolding fresh
apply_committed_entries-replay_example =
    apply_committed_entries-replay machine two_entries two_entries-WellFormed

add_entries-matches_example :
    Matched 1 (newer_second ∷ []) two_entries (add_entries (newer_second ∷ []) two_entries)
unfolding fresh
add_entries-matches_example =
    add_entries-matches 1 (newer_second ∷ []) two_entries (refl, tt) (omega arith)
      two_entries-WellFormed

-- the node of two entries before it has counted
abbrev uncounted : Node (List Bytes)
uncounted = record two_entries { commit_index = 1 }

update_commit_index-Counted_example :
    ((update_commit_index machine uncounted).commit_index ≡ 1)
    ⊎ Counted uncounted (update_commit_index machine uncounted).commit_index
unfolding last_log_index fresh
update_commit_index-Counted_example =
    update_commit_index-Counted machine uncounted (omega arith, (omega arith, tt))

append_request-Follows_example : Follows 1 (second ∷ [])
unfolding append_request copy_of fresh last_log_index entry_in
append_request-Follows_example =
    append_request-Follows two_entries (some 2) two_entries-WellFormed refl

abbrev from_leader : AppendEntriesRequest
from_leader = record {
  term = 2;
  leader_id = 3;
  prev_log_index = 1;
  prev_log_term = 1;
  entries = newer_second ∷ [];
  leader_commit = 2;
}

append_entries-WellFormed_example : WellFormed (append_entries machine from_leader two_entries).0
append_entries-WellFormed_example =
    append_entries-WellFormed machine from_leader two_entries (refl, tt) two_entries-WellFormed

request_vote-granted_iff_example :
    ((request_vote ask_vote two_entries).1.vote_granted ≡ true)
    ↔ (IsFree ask_vote two_entries × UpToDate ask_vote two_entries)
request_vote-granted_iff_example = request_vote-granted_iff ask_vote two_entries

-- a candidate of a later term
abbrev late_candidate : Node (List Bytes)
late_candidate = record new_node { state = candidate; current_term = 3; votes_received = 1 ∷ [] }

on_vote_response-older_example : (on_vote_response machine 2 granted late_candidate).state ≡ leader
unfolding fresh
on_vote_response-older_example =
    on_vote_response-older machine 2 granted late_candidate (omega arith) refl refl (refl, tt)
      (omega arith)

-- ===== src/Tests/Client.antt =====
-- Walks over the nodes of a shard.
use oxide_db.Base.{
  ℕ, ◌≡◌, refl, true, none, some, [], ◌∷◌, List, arith, ◌==◌, if◌then◌else◌, inl, inr, Bool-cases,
}
use oxide_db.Base.Bytes.{bytes_eq}
use oxide_db.Metadata.Table.{Address}
use oxide_db.Client.Routing.{Env, Reply, Outcome, Leaders, no_leaders, ask_shard, elem, hint_of}
use oxide_db.Client.Routing.Progress.{Names}
use oxide_db.Client.Routing.Walk.{ask_shard_returns}

-- The node at address 1 is the one that the table names, node 2 says that node 3 leads, and no node
-- takes the command. The world is the addresses that were asked, the last one first.
abbrev reply_of : ℕ → Reply ℕ
reply_of n = Reply.not_leader n (if n == 2 then some (3 ∷ []) else none)

abbrev node : Address → ℕ
node [] = 0
node (a ∷ l) = a

abbrev replicas : List Address
replicas = (1 ∷ []) ∷ (2 ∷ []) ∷ (3 ∷ []) ∷ []

abbrev leaderless : Env (List Address) Address ℕ
leaderless = record {
  has_router = true;
  get_client_at = λ s a. some a;
  address = λ c. some c;
  table_leader = λ s w. (some (1 ∷ []), w);
  any_replica_for = λ s w. (some (2 ∷ []), w);
  replica_addresses = λ s w. (replicas, w);
  refresh = λ s w. w;
  question = λ c w. (reply_of (node c), c ∷ w);
}

-- the node that a refusal names, and that is queued too, is asked twice
asked_twice :
    ask_shard leaderless 0 8 1 none no_leaders []
    ≡ some (
      Outcome.returned (some 3),
      (
        record {
          hints = [];
          queued = (0, []) ∷ [];
          asked = (0, (3 ∷ []) ∷ (2 ∷ []) ∷ (1 ∷ []) ∷ []) ∷ [];
        },
        (3 ∷ []) ∷ (3 ∷ []) ∷ (2 ∷ []) ∷ (1 ∷ []) ∷ [],
      ),
    )
unfolding ask_shard elem
asked_twice = refl

only_third : (n : ℕ) (a : Address) → hint_of (reply_of n) ≡ some a → elem a replicas ≡ true
unfolding elem bytes_eq
only_third n a = elim (Bool-cases (n == 2)) [
  | inl e ↦ rw e (λ h. let same : 3 ∷ [] ≡ a = cc in rw (← same) refl)
  | inr e ↦ rw e (λ h. cc)
]

leaderless-Names : Names leaderless 0 replicas
unfolding elem bytes_eq
leaderless-Names = record {
  hints = λ c w a h. only_third (node c) a h;
  replicas = λ w. (refl, (refl, (refl, tt)));
  distinct = λ w. (refl, (refl, (refl, tt)));
}

ask_shard_returns_example :
    (x : Outcome ℕ × (Leaders × List Address)) × (ask_shard leaderless 0 16 2 none no_leaders []
      ≡ some x)
ask_shard_returns_example =
    ask_shard_returns leaderless 0 replicas leaderless-Names 2 none [] 16 (omega arith)
      (omega arith)

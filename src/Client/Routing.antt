-- ===== src/Client/Routing.antt =====
-- oxidedb/client/routing.py: `ShardLeaders`, and the walk of `ask_shard` over a shard's nodes.
--
-- What the walk meets is an `Env`: the handles `C` of a factory, the state `W` of everything else, and
-- the answers `A` of a node. What the table names may change with `W`; the addresses that a factory
-- can open do not.
pub mod Counting
pub mod Progress
pub mod Refusals
pub mod Leader
pub mod Walk
use oxide_db.Base.{
  ℕ, zero, suc, ◌-◌, Bool, true, false, not, ◌&&◌, ◌||◌, Option, none, some, List, [], ◌∷◌, ◌++◌,
  ◌==◌, if◌then◌else◌, filter, is_some,
}
use oxide_db.Base.Bytes.{Bytes, bytes_eq}
use oxide_db.Base.Dict.{set_key, get_key, del_key}
use oxide_db.Metadata.Table.{Address}

-- What asking a node comes to: an answer; a result with ERR_NOT_LEADER and where it says the leader
-- is; no result; a range read refused for leadership, or for another reason; a node that is silent.
pub data Reply (A : Type 0) : Type 0 where
  answered : A → Reply A
  not_leader : A → Option Address → Reply A
  nothing : Reply A
  scan_not_leader : Option Address → Reply A
  scan_refused : Reply A
  unreachable : Reply A

-- what `ask_shard` returns or raises
pub data Outcome (A : Type 0) : Type 0 where
  returned : Option A → Outcome A
  raised_refusal : Outcome A
  raised_silence : Outcome A

-- where a refusal says the leader is
abbrev pub hint_of : {A : Type 0} → Reply A → Option Address
hint_of (Reply.not_leader a hint) = hint
hint_of (Reply.scan_not_leader hint) = hint
hint_of _ = none

-- how the call ends when there is nowhere left to ask: by what the last attempt came to
abbrev pub give_up : {A : Type 0} → Reply A → Outcome A
give_up (Reply.answered a) = Outcome.returned (some a)
give_up (Reply.not_leader a hint) = Outcome.returned (some a)
give_up Reply.nothing = Outcome.returned none
give_up (Reply.scan_not_leader hint) = Outcome.raised_refusal
give_up Reply.scan_refused = Outcome.raised_refusal
give_up Reply.unreachable = Outcome.raised_silence

-- what `last_answer` keeps of a reply
abbrev pub answer_of : {A : Type 0} → Reply A → Option A
answer_of (Reply.answered a) = some a
answer_of (Reply.not_leader a hint) = some a
answer_of _ = none

pub record Env (W C A : Type 0) : Type 0 where
  pub has_router : Bool
  pub get_client_at : ℕ → Address → Option C
  pub address : C → Option Address
  pub table_leader : ℕ → W → Option C × W
  pub any_replica_for : ℕ → W → Option C × W
  pub replica_addresses : ℕ → W → List Address × W
  pub refresh : ℕ → W → W
  pub question : C → W → Reply A × W

-- the lookup's memory of every shard: a hint, the replicas still to ask, the addresses asked
pub record Leaders : Type 0 where
  pub hints : List (ℕ × Address)
  pub queued : List (ℕ × List Address)
  pub asked : List (ℕ × List Address)

abbrev pub no_leaders : Leaders
no_leaders = record { hints = []; queued = []; asked = [] }

unfoldable pub elem : Address → List Address → Bool
unfolding bytes_eq
elem a [] = false
elem a (b ∷ l) = bytes_eq a b || elem a l

abbrev list_or_empty : Option (List Address) → List Address
list_or_empty none = []
list_or_empty (some l) = l

unfoldable pub asked_of : ℕ → Leaders → List Address
unfolding get_key
asked_of s l = list_or_empty (get_key s l.asked)

unfoldable pub queue_of : ℕ → Leaders → List Address
unfolding get_key
queue_of s l = list_or_empty (get_key s l.queued)

-- `set.add`
unfoldable pub add : Address → List Address → List Address
unfolding elem
add a l = if elem a l then l else a ∷ l

unfoldable pub note_asked : ℕ → Address → Leaders → Leaders
unfolding add asked_of set_key
note_asked s a l = record l { asked = set_key s (add a (asked_of s l)) l.asked }

unfoldable pub was_asked : ℕ → Address → Leaders → Bool
unfolding elem asked_of
was_asked s a l = elem a (asked_of s l)

unfoldable pub forget_shard : ℕ → Leaders → Leaders
unfolding del_key
forget_shard s l = record {
  hints = del_key s l.hints;
  queued = del_key s l.queued;
  asked = del_key s l.asked;
}

-- what `waiting` is made of
unfoldable pub is_waiting : List Address → List Address → Address → Bool
unfolding elem
is_waiting asked queue a = not (elem a asked) && not (elem a queue)

abbrev pub is_nonempty : List Address → Bool
is_nonempty [] = false
is_nonempty (a ∷ l) = true

module _ {W C A : Type 0} (env : Env W C A) (s : ℕ) where
  abbrev pub can_open : Address → Bool
  can_open a = is_some (env.get_client_at s a)

  -- the handle, with its address noted as asked
  unfoldable pub hand_out : C → Leaders → Leaders
  unfolding note_asked
  hand_out c l = elim (env.address c) [ none ↦ l | some a ↦ note_asked s a l ]

  unfoldable pub remember_hint : Address → Leaders → Bool × Leaders
  unfolding was_asked set_key
  remember_hint a l =
      if was_asked s a l
      then (false, l)
      else if not (can_open a)
      then (false, l)
      else (true, record l { hints = set_key s a l.hints })

  -- the addresses of the table, where there is one
  unfoldable pub replicas : W → List Address × W
  replicas w = if env.has_router then env.replica_addresses s w else ([], w)

  unfoldable pub queue_all : List Address → Leaders → Bool × Leaders
  unfolding set_key asked_of queue_of is_waiting
  queue_all addresses l =
      let asked = asked_of s l in
      let queue = queue_of s l in
      let queue' = queue ++ filter (is_waiting asked queue) (filter can_open addresses) in
      (
        is_nonempty queue',
        record l { asked = set_key s asked l.asked; queued = set_key s queue' l.queued },
      )

  unfoldable pub queue_replicas : Leaders → W → Bool × (Leaders × W)
  unfolding queue_all replicas
  queue_replicas l w =
      let (addresses, w') = replicas w in let (more, l') = queue_all addresses l in (more, (l', w'))

  -- whether there is somewhere else to ask
  unfoldable pub refused_with : Option Address → Leaders → W → Bool × (Leaders × W)
  unfolding remember_hint queue_replicas
  refused_with none l w = queue_replicas l w
  refused_with (some hint) l w =
      let (kept, l') = remember_hint hint l in if kept then (true, (l', w)) else queue_replicas l' w

  unfoldable pub refresh_for_shard : Leaders → W → Leaders × W
  unfolding forget_shard
  refresh_for_shard l w = (forget_shard s l, if env.has_router then env.refresh s w else w)

  -- the loop of `_take_queued` over a queue: the handle, what is left of the queue, and the addresses
  -- asked
  unfoldable pub take_from : List Address → List Address → Option C × (List Address × List Address)
  unfolding add
  take_from [] asked = (none, ([], asked))
  take_from (a ∷ queue) asked =
      let rest = take_from queue (add a asked) in
      elim (env.get_client_at s a) [ none ↦ rest | some c ↦ (some c, (queue, add a asked)) ]

  unfoldable pub take_queued : Leaders → Option C × Leaders
  unfolding take_from queue_of asked_of set_key
  take_queued l =
      if is_nonempty (queue_of s l)
      then (let (c, (queue, asked)) = take_from (queue_of s l) (asked_of s l) in
          (c, record l { queued = set_key s queue l.queued; asked = set_key s asked l.asked }))
      else (none, l)

  -- the handle that the table or the cluster names
  unfoldable pub named_leader : Leaders → W → Option C × (Leaders × W)
  unfolding hand_out
  named_leader l w =
      let (c, w') = env.table_leader s w in
      elim c [
        | none ↦ (none, (l, w'))
        | some c ↦ (some c, (if env.has_router then hand_out c l else l, w'))
      ]

  -- a queued address comes before the table
  unfoldable pub or_named : Option C × Leaders → W → Option C × (Leaders × W)
  unfolding named_leader
  or_named (some c, l) w = (some c, (l, w))
  or_named (none, l) w = named_leader l w

  unfoldable pub next_leader : Leaders → W → Option C × (Leaders × W)
  unfolding take_queued or_named
  next_leader l w = or_named (take_queued l) w

  -- the client that a hint gives, if it can be opened
  abbrev hinted : Option Address → Option C
  hinted none = none
  hinted (some a) = env.get_client_at s a

  abbrev note_hint : Option Address → Leaders → Leaders
  note_hint none l = l
  note_hint (some a) l = note_asked s a l

  -- a hint that can be opened comes first
  unfoldable pub or_next : Option Address → Option C → Leaders → W → Option C × (Leaders × W)
  unfolding note_asked next_leader
  or_next hint (some c) l w = (some c, (note_hint hint l, w))
  or_next hint none l w = next_leader l w

  unfoldable pub leader_for_shard : Leaders → W → Option C × (Leaders × W)
  unfolding get_key del_key or_next
  leader_for_shard l w =
      let hint = get_key s l.hints in
      or_next hint (hinted hint) (record l { hints = del_key s l.hints }) w

  unfoldable pub replica_for_shard : Leaders → W → Option C × (Leaders × W)
  unfolding hand_out
  replica_for_shard l w =
      if env.has_router
      then (let (c, w') = env.any_replica_for s w in
          elim c [ none ↦ (none, (l, w')) | some c ↦ (some c, (hand_out c l, w')) ])
      else (none, (l, w))

-- the variables of the loop
pub record Turn (W C A : Type 0) : Type 0 where
  pub reads_left : ℕ
  pub first : Option C
  pub last_answer : Option A
  pub leaders : Leaders
  pub world : W

pub data Step (W C A : Type 0) : Type 0 where
  stop : Outcome A → Leaders → W → Step W C A
  go : Turn W C A → Step W C A

module _ {W C A : Type 0} (env : Env W C A) (s : ℕ) where
  unfoldable pub pick : Turn W C A → Option C × (Leaders × W)
  unfolding leader_for_shard
  pick t = elim t.first [
    | none ↦ leader_for_shard env s t.leaders t.world
    | some c ↦ (some c, (t.leaders, t.world))
  ]

  -- after a refusal: somewhere else to ask, another read of the table, or the end
  unfoldable pub follow : ℕ → Reply A → Leaders → W → Step W C A
  unfolding refused_with refresh_for_shard
  follow reads_left reply l w =
      let (more, (l', w')) = refused_with env s (hint_of reply) l w in
      let (l'', w'') = refresh_for_shard env s l' w' in
      if more
      then Step.go (record {
        reads_left = reads_left;
        first = none;
        last_answer = answer_of reply;
        leaders = l';
        world = w';
      })
      else if reads_left == 0
      then Step.stop (give_up reply) l' w'
      else Step.go (record {
        reads_left = reads_left - 1;
        first = none;
        last_answer = answer_of reply;
        leaders = l'';
        world = w'';
      })

  unfoldable pub on_reply : ℕ → Reply A → Leaders → W → Step W C A
  unfolding follow forget_shard
  on_reply reads_left (Reply.answered a) l w =
      Step.stop (Outcome.returned (some a)) (forget_shard s l) w
  on_reply reads_left Reply.scan_refused l w = Step.stop Outcome.raised_refusal l w
  on_reply reads_left (Reply.not_leader a hint) l w =
      follow reads_left (Reply.not_leader a hint) l w
  on_reply reads_left Reply.nothing l w = follow reads_left Reply.nothing l w
  on_reply reads_left (Reply.scan_not_leader hint) l w =
      follow reads_left (Reply.scan_not_leader hint) l w
  on_reply reads_left Reply.unreachable l w = follow reads_left Reply.unreachable l w

  -- one round of the loop
  unfoldable pub turn : Turn W C A → Step W C A
  unfolding pick on_reply
  turn t =
      let (c, (l, w)) = pick t in
      elim c [
        | none ↦ Step.stop (Outcome.returned t.last_answer) l w
        | some c ↦ (let (reply, w') = env.question c w in on_reply t.reads_left reply l w')
      ]

  -- the loop, where `none` is that the fuel ran out
  unfoldable pub ask : ℕ → Turn W C A → Option (Outcome A × (Leaders × W))
  unfolding turn
  ask zero t = none
  ask (suc fuel) t = elim (turn t) [ stop o l w ↦ some (o, (l, w)) | go t' ↦ ask fuel t' ]

  -- the first read of the table is the one that the caller came with
  unfoldable pub ask_shard : ℕ → ℕ → Option C → Leaders → W → Option (Outcome A × (Leaders × W))
  unfolding ask
  ask_shard fuel table_reads first l w = ask fuel (record {
    reads_left = table_reads - 1;
    first = first;
    last_answer = none;
    leaders = l;
    world = w;
  })

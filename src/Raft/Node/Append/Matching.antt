-- ===== src/Raft/Node/Append/Matching.antt =====
-- oxidedb/raft/node.py: what the log holds after a request of the leader is taken.
use oxide_db.Base.{
  ℕ, zero, suc, ◌+◌, ◌-◌, ◌≤◌, ◌<◌, ◌≡◌, refl, ◌∙◌, ◌⊎◌, inl, inr, true, Option, none, some, List,
  [], ◌∷◌, ◌++◌, length, length-append, arith, ltb, leb, ◌==◌, if_rule, take, get_elem?, All,
  Bool-cases,
}
use oxide_db.Raft.Disk.{LogEntry}
use oxide_db.Raft.Node.{Node, entry_at, entry_in, append_entry}
use oxide_db.Raft.Node.Log.{Follows}
use oxide_db.Raft.Node.WellFormed.{WellFormed, entry_at-bounds, entry_at-none}
use oxide_db.Raft.Node.Append.{drop_from, place_entry, add_entry, add_entries}
use oxide_db.Raft.Node.Append.Bounds.{end, add_entry-Added, drop_from-end}

get_elem?-append :
    {A : Type 0} (l m : List A) (i : ℕ) → i < length l → get_elem? (l ++ m) i ≡ get_elem? l i
get_elem?-append [] m i h = absurd (omega arith)
get_elem?-append (x ∷ l) m zero h = refl
get_elem?-append (x ∷ l) m (suc i) h = get_elem?-append l m i (omega arith)

get_elem?-snoc : {A : Type 0} (l : List A) (x : A) → get_elem? (l ++ x ∷ []) (length l) ≡ some x
get_elem?-snoc [] x = refl
get_elem?-snoc (y ∷ l) x = get_elem?-snoc l x

get_elem?-take :
    {A : Type 0} (k : ℕ) (l : List A) (i : ℕ) → i < k → get_elem? (take k l) i ≡ get_elem? l i
get_elem?-take zero l i h = absurd (omega arith)
get_elem?-take (suc k) [] i h = refl
get_elem?-take (suc k) (x ∷ l) zero h = refl
get_elem?-take (suc k) (x ∷ l) (suc i) h = get_elem?-take k l i (omega arith)

module _ {S : Type 0} where
  -- an entry appended behind the end is found there, and those before it where they were
  append_entry-there :
      (e : LogEntry) (n : Node S)
      → e.index ≡ end n + 1
      → entry_at (append_entry e n) e.index ≡ some e
  unfolding entry_at entry_in append_entry
  append_entry-there e n h =
      let past : ltb n.last_included_index e.index ≡ true = ground arith in
      let at : e.index - n.last_included_index - 1 ≡ length n.log = omega arith in
      rw (past, at) (get_elem?-snoc n.log e)

  append_entry-before :
      (e : LogEntry) (n : Node S) (i : ℕ) → i ≤ end n → entry_at (append_entry e n) i ≡ entry_at n i
  unfolding entry_at entry_in append_entry
  append_entry-before e n i h = elim (Bool-cases (ltb n.last_included_index i)) [
    | inl past ↦
        rw past
          (get_elem?-append n.log (e ∷ []) (i - n.last_included_index - 1) (ground (arith, past)))
    | inr at ↦ rw at refl
  ]

  append_entry-after :
      (e : LogEntry) (n : Node S) (i : ℕ) (f : LogEntry)
      → e.index ≡ end n + 1
      → e.index < i
      → entry_at (append_entry e n) i ≡ some f
      → ⊥
  unfolding append_entry
  append_entry-after e n i f at h there =
      let high = (entry_at-bounds (append_entry e n) i there).1 in
      let size = length-append n.log (e ∷ []) in omega (arith, high, size, at, h)

  drop_from-before :
      (c : ℕ) (n : Node S) (i : ℕ) → i < c → entry_at (drop_from c n) i ≡ entry_at n i
  unfolding entry_at entry_in drop_from
  drop_from-before c n i h = elim (Bool-cases (ltb n.last_included_index i)) [
    | inl past ↦ rw past (
        get_elem?-take (c - n.last_included_index - 1) n.log (i - n.last_included_index - 1)
          (ground (arith, past)))
    | inr at ↦ rw at refl
  ]

  appended_base :
      (e : LogEntry) (n : Node S) → (append_entry e n).last_included_index ≡ n.last_included_index
  unfolding append_entry
  appended_base e n = refl

  dropped_base : (i : ℕ) (n : Node S) → (drop_from i n).last_included_index ≡ n.last_included_index
  unfolding drop_from
  dropped_base i n = refl

  -- An entry of the leader is held: the snapshot covers it, or it is in the log as it was sent, or
  -- the log still has at its index the entry of its term that it had before.
  abbrev pub Held : Node S → Node S → LogEntry → Type 0
  Held n n' e =
      (e.index ≤ n.last_included_index)
      ⊎ ((entry_at n' e.index ≡ some e)
          ⊎ ((f : LogEntry) × ((entry_at n' e.index ≡ some f)
                × ((entry_at n e.index ≡ some f) × (f.term ≡ e.term)))))

  -- what adding one entry does to the log
  record Placed (e : LogEntry) (n n' : Node S) : Type 0 where
    base : n'.last_included_index ≡ n.last_included_index
    held : Held n n' e
    before : (i : ℕ) → i < e.index → entry_at n' i ≡ entry_at n i
    after : (i : ℕ) (f : LogEntry) → e.index < i → entry_at n' i ≡ some f → entry_at n i ≡ some f

  place_entry-Placed :
      (e : LogEntry) (found : Option LogEntry) (n : Node S)
      → WellFormed n
      → n.last_included_index < e.index
      → e.index ≤ end n + 1
      → entry_at n e.index ≡ found
      → Placed e n (place_entry e found n)
  place_entry-Placed e none n w low b eq =
      let at_end : e.index ≡ end n + 1 = omega (arith, entry_at-none n e.index low eq) in
      record {
        base = appended_base e n;
        held = inr (inl (append_entry-there e n at_end));
        before = λ i h. append_entry-before e n i (omega arith);
        after = λ i f h there. absurd (append_entry-after e n i f at_end h there);
      }
  place_entry-Placed e (some x) n w low b eq =
      let high = (entry_at-bounds n e.index eq).1 in
      let short = drop_from e.index n in
      let at_end : e.index ≡ end short + 1 = omega (arith, drop_from-end e.index n low high) in
      if_rule (Placed e n) (x.term == e.term)
        (λ same. record {
          base = refl;
          held = inr (inr (x, (eq, (eq, ground (arith, same)))));
          before = λ i h. refl;
          after = λ i f h there. there;
        })
        (λ _. record {
          base = appended_base e short ∙ dropped_base e.index n;
          held = inr (inl (append_entry-there e short at_end));
          before =
              λ i h. append_entry-before e short i (omega arith) ∙ drop_from-before e.index n i h;
          after = λ i f h there. absurd (append_entry-after e short i f at_end h there);
        })

  add_entry-Placed :
      (e : LogEntry) (n : Node S) → WellFormed n → e.index ≤ end n + 1 → Placed e n (add_entry e n)
  unfolding add_entry
  add_entry-Placed e n w b =
      if_rule (Placed e n) (leb e.index n.last_included_index)
        (λ below. record {
          base = refl;
          held = inl (ground (arith, below));
          before = λ i h. refl;
          after = λ i f h there. there;
        })
        (λ past. place_entry-Placed e (entry_at n e.index) n w (ground (arith, past)) b refl)

  -- what adding the entries of a request does to the log
  pub record Matched (prev : ℕ) (l : List LogEntry) (n n' : Node S) : Type 0 where
    pub base : n'.last_included_index ≡ n.last_included_index
    pub held : All (Held n n') l
    pub before : (i : ℕ) → i ≤ prev → entry_at n' i ≡ entry_at n i

  Held-same :
      (e : LogEntry) (n n1 n' : Node S)
      → entry_at n' e.index ≡ entry_at n1 e.index
      → Held n n1 e
      → Held n n' e
  Held-same e n n1 n' same (inl h) = inl h
  Held-same e n n1 n' same (inr (inl h)) = inr (inl (same ∙ h))
  Held-same e n n1 n' same (inr (inr (f, (there, rest)))) = inr (inr (f, (same ∙ there, rest)))

  Held-earlier :
      (e : LogEntry) (n n1 n' : Node S)
      → n1.last_included_index ≡ n.last_included_index
      → ((f : LogEntry) → entry_at n1 e.index ≡ some f → entry_at n e.index ≡ some f)
      → Held n1 n' e
      → Held n n' e
  Held-earlier e n n1 n' b g (inl h) = inl (omega (arith, b, h))
  Held-earlier e n n1 n' b g (inr (inl h)) = inr (inl h)
  Held-earlier e n n1 n' b g (inr (inr (f, (there, (was, term))))) =
      inr (inr (f, (there, (g f was, term))))

  -- the entries that follow an index are held as they were held against the log before
  All-earlier :
      (prev : ℕ) (l : List LogEntry) (n n1 n' : Node S)
      → Follows prev l
      → n1.last_included_index ≡ n.last_included_index
      → ((i : ℕ) (f : LogEntry) → prev < i → entry_at n1 i ≡ some f → entry_at n i ≡ some f)
      → All (Held n1 n') l
      → All (Held n n') l
  All-earlier prev [] n n1 n' f b g h = tt
  All-earlier prev (e ∷ l) n n1 n' f b g h = (
    Held-earlier e n n1 n' b (λ x. g e.index x (omega (arith, f.0))) h.0,
    All-earlier (prev + 1) l n n1 n' f.1 b (λ i x k. g i x (omega (arith, k))) h.1,
  )

  -- Adding entries that follow an entry of the log leaves the log up to that entry as it was, and
  -- then holds every one of them: the entry itself is there, or the log has kept the entry of the
  -- same index and term that it had, or the snapshot covers it.
  pub add_entries-matches :
      (prev : ℕ) (l : List LogEntry) (n : Node S)
      → Follows prev l
      → prev ≤ end n
      → WellFormed n
      → Matched prev l n (add_entries l n)
  unfolding add_entries
  add_entries-matches prev [] n f b w = record { base = refl; held = tt; before = λ i h. refl }
  add_entries-matches prev (e ∷ l) n f b w =
      let n1 = add_entry e n in
      let placed = add_entry-Placed e n w (omega (arith, f.0)) in
      let added = add_entry-Added e n w (omega (arith, f.0)) in
      let rest =
        add_entries-matches (prev + 1) l n1 f.1 (omega (arith, f.0, added.reached))
          added.well_formed in
      record {
        base = rest.base ∙ placed.base;
        held = (
          Held-same e n n1 (add_entries l n1) (rest.before e.index (omega (arith, f.0)))
              placed.held,
          All-earlier (prev + 1) l n n1 (add_entries l n1) f.1 placed.base
              (λ i x k. placed.after i x (omega (arith, f.0, k))) rest.held,
        );
        before = λ i h. rest.before i (omega arith) ∙ placed.before i (omega (arith, f.0));
      }

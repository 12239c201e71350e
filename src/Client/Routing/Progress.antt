-- ===== src/Client/Routing/Progress.antt =====
-- oxidedb/client/routing.py: what the steps of a walk use up. A walk is measured by the known addresses
-- not asked yet, the length of the queue, and the known addresses neither asked nor queued.
use oxide_db.Base.{
  ℕ, ◌+◌, ◌≤◌, ◌<◌, ◌≡◌, refl, true, false, not, ◌&&◌, some, List, ◌∷◌, ◌++◌, filter, length,
  length-append, arith, inl, inr, Bool-cases, All, All-filter,
}
use mathlib.Core.Path.{subst}
use oxide_db.Base.Bytes.{bytes_eq, eq_of_bytes_eq, bytes_eq_refl}
use oxide_db.Base.Dict
use oxide_db.Base.Dict.{
  set_key, get_key, del_key, get_key-set_key_self, get_key-del_key, Distinct-set_key,
}
use oxide_db.Metadata.Table.{Address}
use oxide_db.Client.Routing.{
  Env, Leaders, elem, add, asked_of, queue_of, is_waiting, can_open, hint_of,
}
use oxide_db.Client.Routing.Counting.{
  count, count-le, count-lt, count-without, elem-append, Distinct-filter, All-filter_self, Distinct,
  AreKnown,
}

-- the addresses that the answers and the tables of an environment name
pub record Names {W C A : Type 0} (env : Env W C A) (s : ℕ) (known : List Address) : Type 0 where
  pub hints :
      (c : C) (w : W) (a : Address) → hint_of (env.question c w).0 ≡ some a → elem a known ≡ true
  pub replicas : (w : W) → AreKnown known (env.replica_addresses s w).0
  pub distinct : (w : W) → Distinct (env.replica_addresses s w).0

pub elem-add_self : (a : Address) (l : List Address) → elem a (add a l) ≡ true
unfolding elem add
elem-add_self a l = ground (arith, bytes_eq_refl a)

pub elem-add_keep : (a b : Address) (l : List Address) → elem b l ≡ true → elem b (add a l) ≡ true
unfolding elem add
elem-add_keep a b l h = ground (arith, h)

pub elem-add_inv :
    (a b : Address) (l : List Address)
    → elem b (add a l) ≡ false
    → (bytes_eq b a ≡ false) × (elem b l ≡ false)
elem-add_inv a b l h = (
  elim (Bool-cases (bytes_eq b a)) [
    | inl e ↦
        let same : a ≡ b = rw (eq_of_bytes_eq b a e) refl in
        let self : elem b (add a l) ≡ true =
          subst (λ x. elem x (add a l) ≡ true) same (elem-add_self a l) in
        absurd (ground (arith, h, self))
    | inr e ↦ e
  ],
  elim (Bool-cases (elem b l)) [
    | inl e ↦ let kept = elem-add_keep a b l e in absurd (ground (arith, h, kept))
    | inr e ↦ e
  ],
)

module _ {W C A : Type 0} (env : Env W C A) (s : ℕ) (known : List Address) where
  abbrev pub unasked : List Address → ℕ
  unasked asked = count (λ a. not (elem a asked)) known

  abbrev pub fresh : List Address → List Address → ℕ
  fresh asked queue = count (is_waiting asked queue) known

  abbrev pub measure : List Address → List Address → ℕ
  measure asked queue = unasked asked + (length queue + fresh asked queue)

  unfoldable pub size : Leaders → ℕ
  size l = measure (asked_of s l) (queue_of s l)

  -- a hint that is kept can be opened and was not asked; what is queued can be opened
  pub record IsSound (l : Leaders) : Type 0 where
    pub hint :
        (a : Address)
        → get_key s l.hints ≡ some a
        → (elem a known ≡ true) × ((can_open env s a ≡ true) × (elem a (asked_of s l) ≡ false))
    pub open_queue : All (λ a. can_open env s a ≡ true) (queue_of s l)
    pub keys : Dict.Distinct l.hints
    pub queues : Dict.Distinct l.queued

  pub measure-asked :
      (a : Address) (asked queue : List Address) → measure (add a asked) queue ≤ measure asked queue
  unfolding is_waiting
  measure-asked a asked queue =
      let u =
        count-le (λ x. not (elem x (add a asked))) (λ x. not (elem x asked)) known
          (λ x e. ground (arith, e, elem-add_inv a x asked)) in
      let f =
        count-le (is_waiting (add a asked) queue) (is_waiting asked queue) known
          (λ x e. ground (arith, e, elem-add_inv a x asked)) in
      omega arith

  pub measure-asked_new :
      (a : Address) (asked queue : List Address)
      → elem a known ≡ true
      → elem a asked ≡ false
      → measure (add a asked) queue < measure asked queue
  unfolding is_waiting
  measure-asked_new a asked queue k n =
      let u =
        count-lt (λ x. not (elem x (add a asked))) (λ x. not (elem x asked)) known a
          (λ x e. ground (arith, e, elem-add_inv a x asked)) k
          (ground (arith, elem-add_self a asked)) (ground (arith, n)) in
      let f =
        count-le (is_waiting (add a asked) queue) (is_waiting asked queue) known
          (λ x e. ground (arith, e, elem-add_inv a x asked)) in
      omega arith

  pub measure-popped :
      (a : Address) (asked queue : List Address)
      → measure (add a asked) queue < measure asked (a ∷ queue)
  unfolding is_waiting elem
  measure-popped a asked queue =
      let u =
        count-le (λ x. not (elem x (add a asked))) (λ x. not (elem x asked)) known
          (λ x e. ground (arith, e, elem-add_inv a x asked)) in
      let f =
        count-le (is_waiting (add a asked) queue) (is_waiting asked (a ∷ queue)) known
          (λ x e. ground (arith, e, elem-add_inv a x asked)) in
      omega arith

  -- what a table adds to the queue was not waiting before
  pub measure-queued :
      (addresses asked queue : List Address)
      → Distinct addresses
      → AreKnown known addresses
      → measure asked (queue ++ filter (is_waiting asked queue) (filter (can_open env s) addresses))
        ≤ measure asked queue
  unfolding is_waiting
  measure-queued addresses asked queue d k =
      let opened = filter (can_open env s) addresses in
      let more = filter (is_waiting asked queue) opened in
      let d' =
        Distinct-filter (is_waiting asked queue) opened
          (Distinct-filter (can_open env s) addresses d) in
      let k' : AreKnown known more =
        All-filter (λ a. elem a known ≡ true) (is_waiting asked queue) opened
          (All-filter (λ a. elem a known ≡ true) (can_open env s) addresses k) in
      let added =
        count-without known more (is_waiting asked queue) d' k'
          (All-filter_self (is_waiting asked queue) opened) in
      let left =
        count-le (is_waiting asked (queue ++ more))
          (λ a. is_waiting asked queue a && not (elem a more)) known
          (λ x e. ground (arith, e, elem-append x queue more)) in
      let grown = length-append queue more in omega arith

-- ===== src/Paymanager/Events/Pages/Selection.antt =====
-- The WHERE clauses of the pages of orderrepo/pg_event_sink.go and disputerepo/pg_event_sink.go,
-- against what a query asks for.
use distributed_payment_mana.Postgres.{Uuid, Time}
use mathlib.Core.List.{Mem, mem-cons_self, mem-cons_of_mem, not-mem-nil, eq-or-mem_of_mem-cons}
use mathlib.Core.Bool.{false≢true}
use mathlib.Core.Logic.Or
use distributed_payment_mana.Prelude.{
  none, some, ◌<◌, ◌⊎◌, ◌↔◌, refl, sym, [], ◌∷◌, any, str_eq, eq_iff, ◌≤◌, Bool, true, false, List,
  Option, String, ◌∙◌, ◌≡◌, arith, inl, inr, Bool-cases,
}
use distributed_payment_mana.Paymanager.Events.Pages.{
  SinkEvent, EventCursor, EventQuery, row_lt, selects, in_list, from_time, to_time, past_cursor,
}

-- An empty list of a query asks for nothing.
abbrev pub Listed : List String → String → Type 0
Listed xs s = (xs ≡ []) ⊎ Mem s xs

-- (a, i) is before (b, j)
abbrev pub Before : Time → Uuid → Time → Uuid → Type 0
Before a i b j = (a < b) ⊎ ((a ≡ b) × (i < j))

any-Mem : (s : String) (xs : List String) → any (λ y. str_eq y s) xs ≡ true → Mem s xs
unfolding any
any-Mem s [] h = absurd (ground arith)
any-Mem s (x ∷ xs) h = elim (Bool-cases (str_eq x s)) [
  | inl same ↦ rw ((eq_iff x s).0 same) mem-cons_self
  | inr other ↦ mem-cons_of_mem x (any-Mem s xs (ground arith))
]

Listed-in_list : (xs : List String) (s : String) → in_list xs s ≡ true → Listed xs s
Listed-in_list [] s h = inl refl
Listed-in_list (x ∷ xs) s h = inr (any-Mem s (x ∷ xs) h)

Mem-any : (s : String) (xs : List String) → Mem s xs → any (λ y. str_eq y s) xs ≡ true
unfolding any
Mem-any s [] h = absurd (not-mem-nil h)
Mem-any s (x ∷ xs) h = elim (Bool-cases (str_eq x s)) [
  | inl same ↦ ground arith
  | inr other ↦
      let rest : any (λ y. str_eq y s) xs ≡ true =
        Or.elim (hlevel) (eq-or-mem_of_mem-cons h)
          (λ e. absurd (false≢true (sym other ∙ (eq_iff x s).1 (sym e)))) (λ m. Mem-any s xs m) in
      ground arith
]

in_list-Listed : (xs : List String) (s : String) → Listed xs s → in_list xs s ≡ true
in_list-Listed [] s h = refl
in_list-Listed (x ∷ xs) s (inl h) = absurd (ground arith)
in_list-Listed (x ∷ xs) s (inr h) = Mem-any s (x ∷ xs) h

module _ {P : Type 0} where
  abbrev pub PastCursor : Bool → EventCursor → SinkEvent P → Type 0
  PastCursor true k e = Before k.created_at k.event_id e.created_at e.event_id
  PastCursor false k e = Before e.created_at e.event_id k.created_at k.event_id

  -- A row that a query asks for: its owner and its kind are listed, it is not older than the start,
  -- older than the end, and past the cursor in the direction of the query, each where there is one.
  pub record Selected (q : EventQuery) (c : Option EventCursor) (e : SinkEvent P) : Type 0 where
    pub owner : Listed q.owner_ids e.owner_id
    pub kind : Listed q.kinds e.kind
    pub from : (q.time_from ≡ none) ⊎ ((t : Time) × (q.time_from ≡ some t) × (t ≤ e.created_at))
    pub to : (q.time_to ≡ none) ⊎ ((t : Time) × (q.time_to ≡ some t) × (e.created_at < t))
    pub past : (c ≡ none) ⊎ ((k : EventCursor) × (c ≡ some k) × PastCursor q.sort_asc k e)

  to_Selected :
      (q : EventQuery) (c : Option EventCursor) (e : SinkEvent P)
      → selects q c e ≡ true
      → Selected q c e
  unfolding selects row_lt
  to_Selected q c e h = record {
    owner = Listed-in_list q.owner_ids e.owner_id (ground arith);
    kind = Listed-in_list q.kinds e.kind (ground arith);
    from = from_at q.time_from (ground arith);
    to = to_at q.time_to (ground arith);
    past = past_at q.sort_asc c (ground arith);
  }
    where
      from_at :
          (o : Option Time)
          → from_time o e ≡ true
          → (o ≡ none) ⊎ ((t : Time) × (o ≡ some t) × (t ≤ e.created_at))
      from_at none k = inl refl
      from_at (some t) k = inr (t, refl, ground arith)

      to_at :
          (o : Option Time)
          → to_time o e ≡ true
          → (o ≡ none) ⊎ ((t : Time) × (o ≡ some t) × (e.created_at < t))
      to_at none k = inl refl
      to_at (some t) k = inr (t, refl, ground arith)

      past_at :
          (asc : Bool) (o : Option EventCursor)
          → past_cursor asc o e ≡ true
          → (o ≡ none) ⊎ ((k : EventCursor) × (o ≡ some k) × PastCursor asc k e)
      past_at asc none k = inl refl
      past_at true (some x) k = inr (x, refl, ground arith)
      past_at false (some x) k = inr (x, refl, ground arith)

  of_Selected :
      (q : EventQuery) (c : Option EventCursor) (e : SinkEvent P)
      → Selected q c e
      → selects q c e ≡ true
  unfolding selects row_lt
  of_Selected q c e s =
      let owner = in_list-Listed q.owner_ids e.owner_id s.owner in
      let kind = in_list-Listed q.kinds e.kind s.kind in
      let from = from_of q.time_from s.from in
      let to = to_of q.time_to s.to in
      let past = past_of q.sort_asc c s.past in rw (owner, kind, from, to, past) refl
    where
      from_of :
          (o : Option Time)
          → (o ≡ none) ⊎ ((t : Time) × (o ≡ some t) × (t ≤ e.created_at))
          → from_time o e ≡ true
      from_of o (inl h) = rw h refl
      from_of o (inr (t, h, k)) = rw h (ground arith)

      to_of :
          (o : Option Time)
          → (o ≡ none) ⊎ ((t : Time) × (o ≡ some t) × (e.created_at < t))
          → to_time o e ≡ true
      to_of o (inl h) = rw h refl
      to_of o (inr (t, h, k)) = rw h (ground arith)

      past_of :
          (asc : Bool) (o : Option EventCursor)
          → (o ≡ none) ⊎ ((k : EventCursor) × (o ≡ some k) × PastCursor asc k e)
          → past_cursor asc o e ≡ true
      past_of asc o (inl h) = rw h refl
      past_of true o (inr (x, h, k)) = rw h (ground arith)
      past_of false o (inr (x, h, k)) = rw h (ground arith)

  -- The WHERE clauses let a row through exactly where the query asks for it.
  pub selects-Selected :
      (q : EventQuery) (c : Option EventCursor) (e : SinkEvent P)
      → (selects q c e ≡ true) ↔ Selected q c e
  selects-Selected q c e = (to_Selected q c e, of_Selected q c e)

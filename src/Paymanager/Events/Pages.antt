-- ===== src/Paymanager/Events/Pages.antt =====
-- orderrepo/pg_event_sink.go and disputerepo/pg_event_sink.go: a row of a sink, and the pages of
-- GetOrderEvents and GetDisputeEvents. Identifiers are numbers in the order of their texts.
pub mod Ordering
pub mod Selection
use distributed_payment_mana.Prelude.{
  ℕ, suc, zero, ◌+◌, ltb, leb, ◌==◌, ℤ, pos, pos_part, leb_ℤ, ltb_ℤ, String, Bool, true, false,
  Option, none, some, List, [], ◌∷◌, any, filter, sort_by, first_n, not, ◌&&◌, ◌||◌, str_eq, length,
  if◌then◌else◌,
}
use distributed_payment_mana.Postgres.{Uuid, Time}

-- OrderEvent, DisputeEvent; `owner_id` is the order or the dispute.
pub record SinkEvent (P : Type 0) : Type 0 where
  pub event_id : Uuid
  pub owner_id : String
  pub kind : String
  pub provider_event_id : String
  pub content : P
  pub created_at : Time

-- eventCursor
pub record EventCursor : Type 0 where
  pub event_id : Uuid
  pub created_at : Time

-- OrderEventQuery, DisputeEventQuery
pub record EventQuery : Type 0 where
  pub owner_ids : List String
  pub kinds : List String
  pub time_from : Option Time
  pub time_to : Option Time
  pub limit : ℤ
  pub cursor : String
  pub sort_asc : Bool

-- OrderEventPage, DisputeEventPage
pub record EventPage (P : Type 0) : Type 0 where
  pub items : List (SinkEvent P)
  pub next_cursor : String
  pub has_more : Bool

-- `if query.Limit <= 0`, `if query.Limit > 1000`
unfoldable pub clamp_limit : ℤ → ℕ
clamp_limit n = if leb_ℤ n (pos 0) then 10 else if ltb_ℤ (pos 1000) n then 1000 else pos_part n

-- WHERE column IN (…); an empty list filters nothing.
abbrev pub in_list : List String → String → Bool
in_list [] s = true
in_list (x ∷ xs) s = any (λ y. str_eq y s) (x ∷ xs)

-- (a, i) < (b, j)
unfoldable pub row_lt : Time → Uuid → Time → Uuid → Bool
row_lt a i b j = ltb a b || a == b && ltb i j

abbrev encoded : (EventCursor → String) → Option EventCursor → String
encoded encode none = ""
encoded encode (some c) = encode c

module _ {P : Type 0} where
  abbrev pub from_time : Option Time → SinkEvent P → Bool
  from_time none e = true
  from_time (some t) e = leb t e.created_at

  abbrev pub to_time : Option Time → SinkEvent P → Bool
  to_time none e = true
  to_time (some t) e = ltb e.created_at t

  abbrev pub past_cursor : Bool → Option EventCursor → SinkEvent P → Bool
  past_cursor asc none e = true
  past_cursor true (some c) e = row_lt c.created_at c.event_id e.created_at e.event_id
  past_cursor false (some c) e = row_lt e.created_at e.event_id c.created_at c.event_id

  -- The WHERE clauses of buildOrderEventPageQuery.
  unfoldable pub selects : EventQuery → Option EventCursor → SinkEvent P → Bool
  unfolding row_lt
  selects q c e =
      in_list q.owner_ids e.owner_id
      && in_list q.kinds e.kind
      && from_time q.time_from e
      && to_time q.time_to e
      && past_cursor q.sort_asc c e

  -- ORDER BY created_at, id; ascending or descending
  abbrev pub comes_first : Bool → SinkEvent P → SinkEvent P → Bool
  comes_first true a b = row_lt a.created_at a.event_id b.created_at b.event_id
  comes_first false a b = row_lt b.created_at b.event_id a.created_at a.event_id

  -- The cursor of the last item; none of an empty page.
  unfoldable pub last_event : List (SinkEvent P) → Option EventCursor
  last_event [] = none
  last_event (e ∷ []) = some (record { event_id = e.event_id; created_at = e.created_at })
  last_event (e ∷ f ∷ fs) = last_event (f ∷ fs)

  -- The page of the rows that a query selects: one more than the limit is fetched, which only says
  -- that there are more.
  unfoldable pub event_page :
      (EventCursor → String) → EventQuery → Option EventCursor → List (SinkEvent P) → EventPage P
  unfolding row_lt clamp_limit selects filter sort_by first_n last_event
  event_page encode q c rows =
      let limit = clamp_limit q.limit in
      let fetched =
        first_n (suc limit) (sort_by (comes_first q.sort_asc) (filter (selects q c) rows)) in
      if ltb limit (length fetched)
      then (record {
        items = first_n limit fetched;
        next_cursor = encoded encode (last_event (first_n limit fetched));
        has_more = true;
      })
      else (record { items = fetched; next_cursor = ""; has_more = false })

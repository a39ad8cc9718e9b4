-- ===== src/Paymanager/Events/Pages/Ordering.antt =====
-- The order and the size of the pages of orderrepo/pg_event_sink.go and disputerepo/pg_event_sink.go.
use distributed_payment_mana.Silvergate.Tables.Rows.{all-All}
use distributed_payment_mana.Prelude.{
  pos_part, ◌<◌, ◌⊎◌, refl, [], ◌∷◌, All, ℕ, suc, ◌≤◌, ℤ, Bool, true, false, List, all, length,
  Option, String, ltb, filter, sort_by, first_n, Ordered, sort_by-Ordered, first_n-Ordered,
  first_n-length, filter-all, sort_by-all, first_n-all, length-sort_by, first_n_cases, ◌∙◌, ◌≡◌,
  arith, inl, inr, Bool-cases,
}
use distributed_payment_mana.Paymanager.Events.Pages.Selection.{Selected, selects-Selected}
use distributed_payment_mana.Paymanager.Events.Pages.{
  SinkEvent, EventCursor, EventQuery, row_lt, comes_first, selects, clamp_limit, event_page,
}

clamp_limit-most : (n : ℤ) → clamp_limit n ≤ 1000
unfolding clamp_limit
clamp_limit-most n = ground arith

module _ {P : Type 0} where
  abbrev pub Follows : Bool → SinkEvent P → SinkEvent P → Type 0
  Follows true e f =
      (e.created_at < f.created_at) ⊎ ((e.created_at ≡ f.created_at) × (e.event_id ≤ f.event_id))
  Follows false e f =
      (f.created_at < e.created_at) ⊎ ((f.created_at ≡ e.created_at) × (f.event_id ≤ e.event_id))

  -- Each row follows the one before it: by time and then by identifier.
  abbrev pub InOrder : Bool → List (SinkEvent P) → Type 0
  InOrder asc [] = Unit {0}
  InOrder asc (e ∷ []) = Unit {0}
  InOrder asc (e ∷ f ∷ fs) = Follows asc e f × InOrder asc (f ∷ fs)

  to_InOrder :
      (asc : Bool) (es : List (SinkEvent P)) → Ordered (comes_first asc) es → InOrder asc es
  unfolding row_lt
  to_InOrder asc [] h = tt
  to_InOrder asc (e ∷ []) h = tt
  to_InOrder asc (e ∷ f ∷ fs) h = (follows asc e f h.0, to_InOrder asc (f ∷ fs) h.1)
    where
      follows : (asc : Bool) (e f : SinkEvent P) → comes_first asc f e ≡ false → Follows asc e f
      follows true e f h = ground arith
      follows false e f h = ground arith

  comes_first_asym :
      (asc : Bool) (e f : SinkEvent P) → comes_first asc e f ≡ true → comes_first asc f e ≡ false
  unfolding row_lt
  comes_first_asym true e f h = ground arith
  comes_first_asym false e f h = ground arith

  page-Ordered :
      (encode : EventCursor → String) (q : EventQuery) (c : Option EventCursor)
      (rows : List (SinkEvent P))
      → Ordered (comes_first q.sort_asc) (event_page encode q c rows).items
        × (all (selects q c) (event_page encode q c rows).items ≡ true)
        × (length (event_page encode q c rows).items ≤ clamp_limit q.limit)
        × (clamp_limit q.limit ≤ 1000)
  unfolding event_page
  page-Ordered encode q c rows = elim (Bool-cases (ltb n (length fetched))) [
    | inl more ↦ rw more (
      first_n-Ordered (comes_first q.sort_asc) n fetched ordered,
      first_n-all (selects q c) n fetched chosen,
      first_n-length n fetched,
      clamp_limit-most q.limit,
    )
    | inr last ↦ rw last (ordered, chosen, ground arith, clamp_limit-most q.limit)
  ]
    where
      n : ℕ
      n = clamp_limit q.limit

      sorted : List (SinkEvent P)
      sorted = sort_by (comes_first q.sort_asc) (filter (selects q c) rows)

      fetched : List (SinkEvent P)
      fetched = first_n (suc n) sorted

      ordered : Ordered (comes_first q.sort_asc) fetched
      ordered = first_n-Ordered (comes_first q.sort_asc) (suc n) sorted (
          sort_by-Ordered (comes_first q.sort_asc) (comes_first_asym q.sort_asc)
            (filter (selects q c) rows))

      chosen : all (selects q c) fetched ≡ true
      chosen = first_n-all (selects q c) (suc n) sorted (
          sort_by-all (selects q c) (comes_first q.sort_asc) (filter (selects q c) rows)
            (filter-all (selects q c) rows))

  -- A page has all that was asked for, or as much of it as its limit lets through.
  page_cases :
      (encode : EventCursor → String) (q : EventQuery) (c : Option EventCursor)
      (rows : List (SinkEvent P))
      → let p = event_page encode q c rows in
        let all_rows = length (filter (selects q c) rows) in
        ((p.has_more ≡ true)
          × (length p.items ≡ clamp_limit q.limit)
          × (clamp_limit q.limit < all_rows))
        ⊎ ((p.has_more ≡ false) × (length p.items ≡ all_rows))
  unfolding event_page
  page_cases encode q c rows =
      let n = clamp_limit q.limit in
      let chosen = filter (selects q c) rows in
      let sorted = sort_by (comes_first q.sort_asc) chosen in
      let fetched = first_n (suc n) sorted in
      let same = length-sort_by (comes_first q.sort_asc) chosen in
      elim (Bool-cases (ltb n (length fetched))) [
        | inl more ↦ rw more (
            inl (
              refl,
              elim (first_n_cases n fetched) [
                | inl (full, enough) ↦ full
                | inr (part, short) ↦ absurd (ground arith)
              ],
              elim (first_n_cases (suc n) sorted) [
                | inl (full, enough) ↦ omega (arith, same, enough)
                | inr (part, short) ↦ absurd (ground arith)
              ],
            ))
        | inr last ↦ rw last (
            inr (
              refl,
              elim (first_n_cases (suc n) sorted) [
                | inl (full, enough) ↦ absurd (ground arith)
                | inr (part, short) ↦ part ∙ same
              ],
            ))
      ]

  -- Every row of a page is one that its query asks for, and the rows are in the order of the query, by
  -- time and then by identifier, ascending or descending. There are at most 1000 of them, and at most
  -- the limit of the query, or 10 where it asks for none. A page that says that there are more rows
  -- is full, and leaves some out of the table; one that says that there are no more has as many rows
  -- as the WHERE clauses let through.
  pub event_page-InOrder :
      (encode : EventCursor → String) (q : EventQuery) (c : Option EventCursor)
      (rows : List (SinkEvent P))
      → let p = event_page encode q c rows in
        let all_rows = length (filter (selects q c) rows) in
        All (Selected q c) p.items
        × InOrder q.sort_asc p.items
        × (length p.items ≤ 1000)
        × ((length p.items ≤ pos_part q.limit) ⊎ ((pos_part q.limit ≡ 0) × (length p.items ≤ 10)))
        × (((p.has_more ≡ true)
              × (length p.items ≡ clamp_limit q.limit)
              × (clamp_limit q.limit < all_rows))
            ⊎ ((p.has_more ≡ false) × (length p.items ≡ all_rows)))
  unfolding clamp_limit
  event_page-InOrder encode q c rows =
      let (ordered, chosen, short, most) = page-Ordered encode q c rows in
      let items = (event_page encode q c rows).items in
      (
        all-All (Selected q c) (selects q c) items (λ e. (selects-Selected q c e).0) chosen,
        to_InOrder q.sort_asc items ordered,
        omega arith,
        within q.limit short,
        page_cases encode q c rows,
      )
    where
      within :
          {k : ℕ} (n : ℤ) → k ≤ clamp_limit n → (k ≤ pos_part n) ⊎ ((pos_part n ≡ 0) × (k ≤ 10))
      within n h = ground arith

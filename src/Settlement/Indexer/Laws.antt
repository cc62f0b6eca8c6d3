-- ===== src/Settlement/Indexer/Laws.antt =====
-- Polls handle each event of the node's log once, in order.
use creation_of_energy_token.Prelude.{
  ℕ, zero, suc, ◌+◌, ◌≤◌, ◌≡◌, refl, sym, ap, ◌∙◌, inl, inr, List, [], ◌∷◌, ◌++◌, Option, none,
  some, take, drop, length, arith, All,
}
use creation_of_energy_token.Settlement.Types.{done, Attempt-cases}
use creation_of_energy_token.Settlement.Indexer.{
  Cursor, SuiEvent, Page, Query, handle_all, poll_once,
}

suc_add : (n m : ℕ) → suc n + m ≡ suc (n + m)
suc_add n m = omega arith

abbrev nil_of : (A : Type 0) → List A
nil_of A = []

take-nil : {A : Type 0} (n : ℕ) → take n (nil_of A) ≡ []
take-nil zero = refl
take-nil (suc n) = refl

take-length-take : {A : Type 0} (k : ℕ) (xs : List A) → take (length (take k xs)) xs ≡ take k xs
take-length-take zero xs = refl
take-length-take (suc k) [] = refl
take-length-take (suc k) (x ∷ xs) = ap (λ l. x ∷ l) (take-length-take k xs)

pub take-take-drop :
    {A : Type 0} (n k : ℕ) (xs : List A)
    → take (n + length (take k (drop n xs))) xs ≡ take n xs ++ take k (drop n xs)
take-take-drop zero k xs = ap (λ m. take m xs) (omega arith) ∙ take-length-take k xs
take-take-drop (suc n) k [] =
    take-nil (suc n + length (take k (drop (suc n) (nil_of _)))) ∙ sym (take-nil k)
take-take-drop (suc n) k (x ∷ xs) =
    ap (λ m. take m (x ∷ xs)) (suc_add n (length (take k (drop n xs))))
    ∙ ap (λ l. x ∷ l) (take-take-drop n k xs)

-- The cursor after an answer.
abbrev pub next_of : Option Cursor → Page → Option Cursor
next_of cursor page = elim page.next_cursor [ none ↦ cursor | some next ↦ some next ]

-- A node over a log of events, of which a cursor tells a position; the log has also the events that
-- are yet to come. An answer has some of the next events, up to fifty, as many as the chain has by
-- then, and its cursor stands behind them.
pub record IsPaged (log : List SuiEvent) (position : Option Cursor → ℕ) (query : Query)
    : Type 0 where
  pub size : Option Cursor → Page → ℕ
  pub few : (c : Option Cursor) (page : Page) → size c page ≤ 50
  pub events :
      (c : Option Cursor) (page : Page)
      → query c ≡ done page
      → page.events ≡ take (size c page) (drop (position c) log)
  pub moved :
      (c : Option Cursor) (page : Page)
      → query c ≡ done page
      → position (next_of c page) ≡ position c + length page.events

module _ (log : List SuiEvent) (position : Option Cursor → ℕ) {S : Type 0}
    (handler : SuiEvent → S → S) (start : S) where
  -- Exactly the events before the cursor were handled, each once and in order.
  abbrev pub UpTo : Option Cursor × S → Type 0
  UpTo (cursor, s) = s ≡ handle_all handler (take (position cursor) log) start

  handle_all-append :
      (xs ys : List SuiEvent) (s : S)
      → handle_all handler (xs ++ ys) s ≡ handle_all handler ys (handle_all handler xs s)
  unfolding handle_all
  handle_all-append [] ys s = refl
  handle_all-append (x ∷ xs) ys s = handle_all-append xs ys (handler x s)

  -- So many polls, each with the node's answers at its time.
  abbrev pub polls : List Query → Option Cursor × S → Option Cursor × S
  polls [] state = state
  polls (query ∷ queries) state = polls queries (poll_once handler query state)

  answered-UpTo :
      (query : Query) (cursor : Option Cursor) (s : S) (page : Page)
      → IsPaged log position query
      → query cursor ≡ done page
      → UpTo (cursor, s)
      → UpTo (next_of cursor page, handle_all handler page.events s)
  answered-UpTo query cursor s page h e up =
      let n = position cursor in
      let events = h.events cursor page e in
      let moved = h.moved cursor page e in
      ap (handle_all handler page.events) up
      ∙ sym (handle_all-append (take n log) page.events start)
      ∙ ap (λ l. handle_all handler l start)
          (ap (λ l. take n log ++ l) events
            ∙ sym (take-take-drop n (h.size cursor page) log)
            ∙ ap (λ m. take m log) (ap (λ l. n + length l) (sym events) ∙ sym moved))

  poll_once-UpTo :
      (query : Query) (state : Option Cursor × S)
      → IsPaged log position query
      → UpTo state
      → UpTo (poll_once handler query state)
  unfolding poll_once
  poll_once-UpTo query (cursor, s) h up = elim (Attempt-cases (query cursor)) [
    | inl (page, e) ↦ rw (poll_once, e) (answered-UpTo query cursor s page h e up)
    | inr (x, e) ↦ rw (poll_once, e) up
  ]

  -- Let every answer of the node be paged, where the chain may have more events at each poll than at
  -- the one before, and let each poll have its answer before the next begins. However many polls
  -- are made, and whichever of them fail, exactly the events before the cursor are handled, each
  -- once and in the log's order.
  pub polls-UpTo :
      (queries : List Query) (state : Option Cursor × S)
      → All (IsPaged log position) queries
      → UpTo state
      → UpTo (polls queries state)
  polls-UpTo [] state h up = up
  polls-UpTo (query ∷ queries) state (paged, h) up =
      polls-UpTo queries (poll_once handler query state) h (poll_once-UpTo query state paged up)

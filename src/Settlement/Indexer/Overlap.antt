-- ===== src/Settlement/Indexer/Overlap.antt =====
-- Polls that overlap miss no event.
use creation_of_energy_token.Prelude.{
  take_out, ℕ, zero, suc, ◌+◌, ◌≤◌, ◌≡◌, ◌⊎◌, refl, sym, ap, ◌∙◌, subst, inl, inr, List, [], ◌∷◌,
  ◌++◌, Option, none, some, take, drop, length, All, All-append, Option-cases,
}
use creation_of_energy_token.Settlement.Types.{Attempt, done, threw}
use creation_of_energy_token.Settlement.Indexer.{
  Cursor, SuiEvent, Page, handle_all, take_answer, Indexing, PollEvent, ticked, answered, poll_step,
}
use creation_of_energy_token.Settlement.Indexer.Laws.{take-take-drop}

-- The handler that keeps the events that it was handed, in order.
abbrev pub keep : SuiEvent → List SuiEvent → List SuiEvent
keep ev handled = handled ++ ev ∷ []

-- An event is among those handled.
abbrev pub Has : SuiEvent → List SuiEvent → Type 0
Has ev [] = ⊥
Has ev (h ∷ handled) = (h ≡ ev) ⊎ Has ev handled

-- Each of the events was handled, at least once.
abbrev pub Covers : List SuiEvent → List SuiEvent → Type 0
Covers events handled = All (λ ev. Has ev handled) events

Has-before : (ev : SuiEvent) (xs ys : List SuiEvent) → Has ev xs → Has ev (xs ++ ys)
Has-before ev [] ys h = absurd h
Has-before ev (x ∷ xs) ys (inl e) = inl e
Has-before ev (x ∷ xs) ys (inr h) = inr (Has-before ev xs ys h)

Has-after : (ev : SuiEvent) (xs ys : List SuiEvent) → Has ev ys → Has ev (xs ++ ys)
Has-after ev [] ys h = h
Has-after ev (x ∷ xs) ys h = inr (Has-after ev xs ys h)

Covers-more : (events xs ys : List SuiEvent) → Covers events xs → Covers events (xs ++ ys)
Covers-more [] xs ys h = tt
Covers-more (ev ∷ events) xs ys (h, hs) = (Has-before ev xs ys h, Covers-more events xs ys hs)

Covers-after : (events xs ys : List SuiEvent) → Covers events ys → Covers events (xs ++ ys)
Covers-after [] xs ys h = tt
Covers-after (ev ∷ events) xs ys (h, hs) = (Has-after ev xs ys h, Covers-after events xs ys hs)

Covers-self : (events : List SuiEvent) → Covers events events
Covers-self [] = tt
Covers-self (ev ∷ events) = (inl refl, Covers-after events (ev ∷ []) events (Covers-self events))

append_assoc_one : (xs ys : List SuiEvent) (ev : SuiEvent) → (xs ++ ev ∷ []) ++ ys ≡ xs ++ ev ∷ ys
append_assoc_one [] ys ev = refl
append_assoc_one (x ∷ xs) ys ev = ap (λ l. x ∷ l) (append_assoc_one xs ys ev)

append_nil : (xs : List SuiEvent) → xs ≡ xs ++ []
append_nil [] = refl
append_nil (x ∷ xs) = ap (λ l. x ∷ l) (append_nil xs)

handle_all-keep :
    (events handled : List SuiEvent) → handle_all keep events handled ≡ handled ++ events
unfolding handle_all
handle_all-keep [] handled = append_nil handled
handle_all-keep (ev ∷ events) handled =
    handle_all-keep events (handled ++ ev ∷ []) ∙ append_assoc_one handled events ev

module _ {A : Type 0} (P : A → Type 0) where
  -- A predicate on the element that was taken out, if there is one, and on the others.
  abbrev AllOut : Option (A × List A) → Type 0
  AllOut none = Unit {0}
  AllOut (some (y, ys)) = P y × All P ys

  AllOut-kept :
      (x : A) (o : Option (A × List A))
      → P x
      → AllOut o
      → AllOut (elim o [ none ↦ none | some (y, ys) ↦ some (y, x ∷ ys) ])
  AllOut-kept x none h hs = tt
  AllOut-kept x (some (y, ys)) h (hy, hys) = (hy, (h, hys))

  take_out-AllOut : (n : ℕ) (xs : List A) → All P xs → AllOut (take_out n xs)
  take_out-AllOut n [] h = tt
  take_out-AllOut zero (x ∷ xs) h = h
  take_out-AllOut (suc n) (x ∷ xs) (h, hs) =
      AllOut-kept x (take_out n xs) h (take_out-AllOut n xs hs)

module _ (log : List SuiEvent) (position : Option Cursor → ℕ) where
  -- The cursor of an answer to a poll that asked from a cursor stands behind the answer's events.
  abbrev IsNext : Option Cursor → List SuiEvent → Option Cursor → Type 0
  IsNext asked events none = events ≡ []
  IsNext asked events (some next) = position (some next) ≡ position asked + length events

  -- An answer to a poll that asked from a cursor: an error, or up to fifty of the next events of
  -- the log, as many as the chain has by then, with a cursor behind them where there are any.
  abbrev pub IsAnswer : Option Cursor → Attempt Page → Type 0
  IsAnswer asked (threw e) = Unit {0}
  IsAnswer asked (done page) =
      (size : ℕ) × (size ≤ 50)
      × (page.events ≡ take size (drop (position asked) log))
      × IsNext asked page.events page.next_cursor

  -- The answer of an event belongs to the poll that it answers.
  abbrev pub IsPossible : PollEvent → Indexing (List SuiEvent) → Type 0
  IsPossible ticked ix = Unit {0}
  IsPossible (answered n answer) ix =
      (asked : Option Cursor) (others : List (Option Cursor))
      → take_out n ix.waiting ≡ some (asked, others)
      → IsAnswer asked answer

  abbrev pub run_events : List PollEvent → Indexing (List SuiEvent) → Indexing (List SuiEvent)
  run_events [] ix = ix
  run_events (event ∷ events) ix = run_events events (poll_step keep event ix)

  abbrev pub ArePossible : List PollEvent → Indexing (List SuiEvent) → Type 0
  ArePossible [] ix = Unit {0}
  ArePossible (event ∷ events) ix =
      IsPossible event ix × ArePossible events (poll_step keep event ix)

  -- The events of the log before a cursor were handled.
  abbrev Passed : List SuiEvent → Option Cursor → Type 0
  Passed handled cursor = Covers (take (position cursor) log) handled

  -- The events before the cursor, and before those from which polls have asked, were handled.
  record IsComplete (ix : Indexing (List SuiEvent)) : Type 0 where
    now : Passed ix.state ix.cursor
    asked : All (Passed ix.state) ix.waiting

  Passed-page :
      (asked : Option Cursor) (page : Page) (handled : List SuiEvent) (next : Cursor) (size : ℕ)
      → page.events ≡ take size (drop (position asked) log)
      → position (some next) ≡ position asked + length page.events
      → Passed handled asked
      → Passed (handle_all keep page.events handled) (some next)
  Passed-page asked page handled next size events moved passed =
      let n = position asked in
      let ends : take (position (some next)) log ≡ take n log ++ page.events =
        ap (λ m. take m log) (moved ∙ ap (λ l. n + length l) events)
        ∙ take-take-drop n size log
        ∙ ap (λ l. take n log ++ l) (sym events) in
      subst (λ l. Covers l (handle_all keep page.events handled)) (sym ends)
        (subst (Covers (take n log ++ page.events)) (sym (handle_all-keep page.events handled)) (
          All-append (λ ev. Has ev (handled ++ page.events)) (take n log) page.events
            (Covers-more (take n log) handled page.events passed)
            (Covers-after page.events handled page.events (Covers-self page.events))))

  Passed-more :
      (events handled : List SuiEvent) (cursor : Option Cursor)
      → Passed handled cursor
      → Passed (handle_all keep events handled) cursor
  Passed-more events handled cursor passed =
      subst (Covers (take (position cursor) log)) (sym (handle_all-keep events handled))
        (Covers-more (take (position cursor) log) handled events passed)

  All-Passed-more :
      (events handled : List SuiEvent) (cursors : List (Option Cursor))
      → All (Passed handled) cursors
      → All (Passed (handle_all keep events handled)) cursors
  All-Passed-more events handled [] h = tt
  All-Passed-more events handled (c ∷ cursors) (h, hs) =
      (Passed-more events handled c h, All-Passed-more events handled cursors hs)

  page-IsComplete :
      (asked cursor : Option Cursor) (others : List (Option Cursor))
      (events handled : List SuiEvent) (next : Option Cursor)
      → IsAnswer asked (done (record { events = events; next_cursor = next }))
      → Passed handled asked
      → Passed handled cursor
      → All (Passed handled) others
      → let (c, s) =
          take_answer keep
            (done (record { events = events; next_cursor = next }))
            (cursor, handled) in
        Passed s c × All (Passed s) others
  unfolding take_answer
  page-IsComplete asked cursor others events handled none answer before now rest =
      (Passed-more events handled cursor now, All-Passed-more events handled others rest)
  page-IsComplete asked cursor others events handled (some next) (size, few, taken, moved) before
        now rest =
      (
        Passed-page asked (record { events = events; next_cursor = some next }) handled next size
            taken moved before,
        All-Passed-more events handled others rest,
      )

  answer-IsComplete :
      (asked cursor : Option Cursor) (others : List (Option Cursor)) (handled : List SuiEvent)
      (answer : Attempt Page)
      → IsAnswer asked answer
      → Passed handled asked
      → Passed handled cursor
      → All (Passed handled) others
      → let (c, s) = take_answer keep answer (cursor, handled) in Passed s c × All (Passed s) others
  unfolding take_answer
  answer-IsComplete asked cursor others handled (threw e) answers before now rest = (now, rest)
  answer-IsComplete asked cursor others handled (done page) answers before now rest =
      page-IsComplete asked cursor others page.events handled page.next_cursor answers before now
        rest

  poll_step-IsComplete :
      (event : PollEvent) (ix : Indexing (List SuiEvent))
      → IsPossible event ix
      → IsComplete ix
      → IsComplete (poll_step keep event ix)
  unfolding poll_step
  poll_step-IsComplete ticked ix possible h = record {
    now = h.now;
    asked = All-append (Passed ix.state) ix.waiting (ix.cursor ∷ []) h.asked (h.now, tt);
  }
  poll_step-IsComplete (answered n answer) ix possible h =
      elim (Option-cases (take_out n ix.waiting)) [
        | inl e ↦ rw (poll_step, e) h
        | inr ((asked, others), e) ↦
            let (before, rest) =
              subst (AllOut (Passed ix.state)) e
                (take_out-AllOut (Passed ix.state) n ix.waiting h.asked) in
            let (now, waiting) =
              answer-IsComplete asked ix.cursor others ix.state answer (possible asked others e)
                before h.now rest in
            rw (poll_step, e) (record { now = now; asked = waiting })
      ]

  run_events-IsComplete :
      (events : List PollEvent) (ix : Indexing (List SuiEvent))
      → ArePossible events ix
      → IsComplete ix
      → IsComplete (run_events events ix)
  run_events-IsComplete [] ix possible h = h
  run_events-IsComplete (event ∷ events) ix (possible, later) h =
      run_events-IsComplete events (poll_step keep event ix) later
        (poll_step-IsComplete event ix possible h)

  -- Let each answer be an error, or up to fifty of the events of the log that come next after the
  -- cursor from which its poll asked, with a cursor behind them. However polls overlap, and in
  -- whichever order they are answered or fail, each event of the log before the cursor has been
  -- handled at least once, provided it had been, and no poll waited, at first.
  pub run_events-Covers :
      (events : List PollEvent) (cursor : Option Cursor) (handled : List SuiEvent)
      → let first : Indexing (List SuiEvent) = record {
        cursor = cursor;
        waiting = [];
        state = handled;
      } in
        ArePossible events first
        → Covers (take (position cursor) log) handled
        → let ix = run_events events first in Covers (take (position ix.cursor) log) ix.state
  run_events-Covers events cursor handled possible passed =
      (run_events-IsComplete events (record { cursor = cursor; waiting = []; state = handled })
        possible (record { now = passed; asked = tt })).now

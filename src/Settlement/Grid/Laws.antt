-- ===== src/Settlement/Grid/Laws.antt =====
-- A credit note that the ERP has taken is not posted again.
use creation_of_energy_token.Prelude.{
  take_out, ℕ, ◌+◌, true, List, [], ◌∷◌, ◌++◌, Option, none, some, Text, text_Eq, ◌===◌, ◌≡◌, inl,
  inr, refl, ◌∙◌, if◌then◌else◌, arith, Option-cases, Bool-cases,
}
use creation_of_energy_token.Prelude.Dict.{get, get-set, get-set_self}
use creation_of_energy_token.Settlement.Grid.{
  ErpPost, ErpResponse, ErpSyncResult, GridOperatorClient, Syncing, SyncEvent, called, answered,
  record_response, begin_sync, finish_sync, sync_step,
}

-- How many posts were made with a key.
abbrev pub count_posts : Text → List ErpPost → ℕ
count_posts key [] = 0
count_posts key (post ∷ posts) =
    (if post.idempotency_key === key then 1 else 0) + count_posts key posts

-- The client has a result for the key, which says that the ERP took the note.
abbrev pub Remembers : Text → GridOperatorClient → Type 0
Remembers key s = (r : ErpSyncResult) × (get key s.delivered ≡ some r) × (r.ok ≡ true)

count_posts-append :
    (key : Text) (posts : List ErpPost) (post : ErpPost)
    → count_posts key (posts ++ post ∷ [])
      ≡ count_posts key posts + (if post.idempotency_key === key then 1 else 0)
count_posts-append key [] post = omega arith
count_posts-append key (p ∷ posts) post = omega (arith, count_posts-append key posts post)

-- The key stays remembered and is not posted.
abbrev IsSettled : Text → GridOperatorClient → GridOperatorClient → Type 0
IsSettled key s t = (count_posts key t.posts ≡ count_posts key s.posts) × Remembers key t

begin_sync-IsSettled :
    (key : Text) (post : ErpPost) (s : GridOperatorClient)
    → Remembers key s
    → IsSettled key s (begin_sync post s).1
unfolding begin_sync
begin_sync-IsSettled key post s (r, known, ok) =
    elim (Option-cases (get post.idempotency_key s.delivered)) [
      | inr (cached, e) ↦ (ground (arith, e), (r, ground (arith, e, known), ok))
      | inl e ↦ (
        ground (
          arith,
          e,
          known,
          text_Eq.beq_iff post.idempotency_key key,
          count_posts-append key s.posts post,
        ),
        (r, ground (arith, e, known), ok),
      )
    ]

finish_sync-IsSettled :
    (key : Text) (answer : Option ErpResponse) (post : ErpPost) (s : GridOperatorClient)
    → Remembers key s
    → IsSettled key s (finish_sync answer post s).1
unfolding finish_sync record_response
finish_sync-IsSettled key none post s known = (refl, known)
finish_sync-IsSettled key (some response) post s (r, known, ok) =
    let result : ErpSyncResult = (record_response post response s).0 in
    let new = get-set post.idempotency_key key result s.delivered in
    elim (Bool-cases response.ok) [
      | inr refused ↦ (ground (arith, refused), (r, ground (arith, refused, known), ok))
      | inl taken ↦ elim (Bool-cases (post.idempotency_key === key)) [
        | inl same ↦ (ground (arith, taken), (result, ground (arith, taken, same, new), taken))
        | inr differ ↦ (ground (arith, taken), (r, ground (arith, taken, differ, new, known), ok))
      ]
    ]

accepted-Remembers :
    (post : ErpPost) (response : ErpResponse) (s : GridOperatorClient)
    → response.ok ≡ true
    → (count_posts post.idempotency_key (finish_sync (some response) post s).1.posts
        ≡ count_posts post.idempotency_key s.posts)
      × Remembers post.idempotency_key (finish_sync (some response) post s).1
unfolding finish_sync record_response
accepted-Remembers post response s ok =
    let result : ErpSyncResult = (record_response post response s).0 in
    let new = get-set_self post.idempotency_key result s.delivered in
    (ground (arith, ok), (result, ground (arith, ok, new), ok))

abbrev pub run_events : List SyncEvent → Syncing → Syncing
run_events [] s = s
run_events (event ∷ events) s = run_events events (sync_step event s)

sync_step-IsSettled :
    (key : Text) (event : SyncEvent) (s : Syncing)
    → Remembers key s.client
    → IsSettled key s.client (sync_step event s).client
unfolding sync_step
sync_step-IsSettled key (called post) s known = begin_sync-IsSettled key post s.client known
sync_step-IsSettled key (answered n answer) s known = elim (Option-cases (take_out n s.waiting)) [
  | inr ((post, others), e) ↦
      rw (sync_step, e) (finish_sync-IsSettled key answer post s.client known)
  | inl e ↦ rw (sync_step, e) (refl, known)
]

run_events-IsSettled :
    (key : Text) (events : List SyncEvent) (s : Syncing)
    → Remembers key s.client
    → IsSettled key s.client (run_events events s).client
run_events-IsSettled key [] s known = (refl, known)
run_events-IsSettled key (event ∷ events) s known =
    let (same, after) = sync_step-IsSettled key event s known in
    let (later, end) = run_events-IsSettled key events (sync_step event s) after in
    (later ∙ same, end)

-- Let the call at a position among the waiting ones get an answer that is ok. Then, whichever
-- calls begin and whichever waiting ones are answered or fail later, in any order, no post is made
-- again with that call's key, and the client keeps a result for it that is ok.
pub run_events-posts :
    (n : ℕ) (post : ErpPost) (others : List ErpPost) (response : ErpResponse)
    (events : List SyncEvent) (s : Syncing)
    → take_out n s.waiting ≡ some (post, others)
    → response.ok ≡ true
    → let later = run_events events (sync_step (answered n (some response)) s) in
      (count_posts post.idempotency_key later.client.posts
        ≡ count_posts post.idempotency_key s.client.posts)
      × Remembers post.idempotency_key later.client
unfolding sync_step
run_events-posts n post others response events s e ok =
    let taken = sync_step (answered n (some response)) s in
    let (same, known) = accepted-Remembers post response s.client ok in
    let key = post.idempotency_key in
    let settled : IsSettled key s.client taken.client = rw (sync_step, e) (same, known) in
    let (later, end) = run_events-IsSettled key events taken settled.1 in (later ∙ settled.0, end)

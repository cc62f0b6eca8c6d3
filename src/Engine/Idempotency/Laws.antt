-- ===== src/Engine/Idempotency/Laws.antt =====
-- The guard against running one execution twice.
use creation_of_energy_token.Prelude.{
  ℕ, ◌≡◌, Option, none, some, Text, text_Eq, arith, Bool, false, ◌↔◌,
}
use creation_of_energy_token.Prelude.Dict.{get-set_self, get-set_ne}
use creation_of_energy_token.Engine.Types.{RecordStatus, ok}
use creation_of_energy_token.Engine.Idempotency.{
  ExecutionRecord, Guard, check, is_in_flight, assert_not_in_flight, record_status, first_of_two,
  next_record,
}

abbrev pub status_of : Guard → Text → Option RecordStatus
status_of g id = elim (check g id) [ none ↦ none | some r ↦ some r.status ]

-- An entry blocks a new run.
abbrev pub blocks : Option RecordStatus → Bool
blocks none = false
blocks (some s) = is_in_flight s

-- The assertion passes exactly when no entry in flight stands in the guard.
pub assert_not_in_flight_iff :
    (g : Guard) (id : Text)
    → (assert_not_in_flight g id ≡ ok tt) ↔ (blocks (status_of g id) ≡ false)
unfolding assert_not_in_flight check
assert_not_in_flight_iff g id = ground arith

pub status_of-record_self :
    (g : Guard) (id : Text) (s : RecordStatus) (h : Option Text) (now : ℕ)
    → status_of (record_status g id s h now) id ≡ some s
unfolding record_status check
status_of-record_self g id s h now = ground (arith, get-set_self id (next_record g id s h now) g)

pub check-record_ne :
    (g : Guard) (id other : Text) (s : RecordStatus) (h : Option Text) (now : ℕ)
    → (id ≡ other → ⊥)
    → check (record_status g id s h now) other ≡ check g other
unfolding record_status check
check-record_ne g id other s h now ne = rw (get-set_ne id other _ g ne)

-- Recording over an entry: the status and the time of the update are new, the time of creation
-- stays, and the hash stays where no new one is given; other entries are left alone.
pub record_status-keeps :
    (g : Guard) (id other : Text) (s : RecordStatus) (h : Option Text) (now : ℕ)
    {old : ExecutionRecord}
    → check g id ≡ some old
    → (id ≡ other → ⊥)
    → (check (record_status g id s h now) id
        ≡ some (record old {
          execution_id = id;
          status = s;
          tx_hash = first_of_two h old.tx_hash;
          updated_at = now;
        }))
      × (check (record_status g id s h now) other ≡ check g other)
unfolding record_status check
record_status-keeps g id other s h now e ne =
    (rw get-set_self (rw e), rw (get-set_ne id other _ g ne))

-- ===== src/Scheduler/Drain/SqlStore.antt =====
-- The SQL storage of internal/storage/sql, on a table, as the storage of the scheduler.
use golang_hw.Calendar.Event.{Time, Event, Error, validate_event}
use golang_hw.Notification.{Failure, fault}
use golang_hw.Prelude.Int.{pos, leb_ℤ}
use golang_hw.Prelude.{
  ℕ, suc, Bool, true, false, Option, none, some, List, ◌≡◌, ◌⊎◌, inl, inr, ap, ◌∙◌, subst, All,
  Text, ◌==◌, arith,
}
use golang_hw.Scheduler.Drain.{PendingStore, IsLawful}
use golang_hw.Sql.Table.Due.{due-mark, due-keep_rows}
use golang_hw.Sql.Table.Good.{Good, change_rows-Good, due-Valid}
use golang_hw.Sql.Table.Listing.{listed_due, marked_rows, kept_rows}
use golang_hw.Sql.Table.{Row, due, on_rows, change_rows}
use golang_hw.Sql.{list_events_for_notification, mark_notification_sent, delete_events_before}

-- An error of the storage is no cancellation.
abbrev answered : {A : Type 0} → Error ⊎ A → Failure ⊎ A
answered (inl err) = inl (fault 0)
answered (inr a) = inr a

abbrev failed : Error ⊎ Unit {0} → Option Failure
failed (inl err) = some (fault 0)
failed (inr a) = none

positive : (limit : ℕ) → leb_ℤ (pos (suc limit)) (pos 0) ≡ false
positive limit = ground arith

-- A table that keeps its constraints.
abbrev pub Rows : Type 0
Rows = (rows : List Row) × Good rows

module _ (reached : Time → Event → Bool) (id_before : Text → Text → Bool) where
  abbrev pub sql_store : PendingStore
  sql_store = record {
    State = Rows;
    due = λ s now. due reached id_before now s.0;
    list = λ s now limit.
        answered (on_rows reached id_before (list_events_for_notification true now limit) s.0);
    mark = λ s e at.
        let x = change_rows (mark_notification_sent true e at) s.0 in
        ((x.0, change_rows-Good (mark_notification_sent true e at) s.0 s.1), answered x.1);
    delete_before = λ s cutoff.
        let x = change_rows (delete_events_before true cutoff) s.0 in
        ((x.0, change_rows-Good (delete_events_before true cutoff) s.0 s.1), failed x.1);
  }

  pub sql_store-IsLawful : IsLawful sql_store
  sql_store-IsLawful = record {
    list-due = λ s now limit z.
        ap answered (listed_due reached id_before now (pos (suc limit)) s.0 z (positive limit));
    mark-due = λ s now e rest z d.
        let v =
          (subst (All (λ e. validate_event e ≡ true)) d
            (due-Valid reached id_before now s.0 s.1.1)).0 in
        let m = marked_rows e now s.0 v z in
        let (a, b) = due-mark reached id_before now now s.0 e rest s.1.0 d in
        (
          ap (λ x. due reached id_before now x.0) m ∙ a,
          ap (λ x. answered x.1) m ∙ ap (λ n. inr (n == 1)) b,
        );
    delete_before-due = λ s now cutoff z old.
        let k = kept_rows cutoff s.0 z in
        (
          ap (λ x. due reached id_before now x.0) k
              ∙ due-keep_rows reached id_before now cutoff s.0 old,
          ap (λ x. failed x.1) k,
        );
  }

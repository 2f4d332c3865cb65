-- ===== src/Notifications/Reads.antt =====
-- Which notifications are read after a mark (app/routers/reports.py).
use ssh_reports_hub_fast_api.Prelude.{
  ℕ, ◌+◌, ◌&&◌, ◌||◌, ◌≡◌, refl, String, Bool, true, false, List, [], ◌∷◌, ◌++◌, any, any-append,
  arith, str_eq, eq_iff, ◌==◌, ==_iff, Bool-cases, inl, inr, if◌then◌else◌,
}
use ssh_reports_hub_fast_api.Notifications.{
  NotificationRead, is_row, is_read, mark_notification_read, added_rows,
  mark_all_notifications_read,
}

abbrev pub named : String → List String → Bool
named key = any (λ k. str_eq k key)

abbrev pub times_read : ℕ → String → List NotificationRead → ℕ
times_read user key [] = 0
times_read user key (row ∷ rows) =
    if is_row user key row then times_read user key rows + 1 else times_read user key rows

abbrev pub times_named : String → List String → ℕ
times_named key [] = 0
times_named key (k ∷ ks) = if str_eq k key then times_named key ks + 1 else times_named key ks

times_read-append :
    (user : ℕ) (key : String) (xs ys : List NotificationRead)
    → times_read user key (xs ++ ys) ≡ times_read user key xs + times_read user key ys
times_read-append user key [] ys = omega arith
times_read-append user key (x ∷ xs) ys = ground (arith, times_read-append user key xs ys)

is_read-times_read :
    (user : ℕ) (key : String) (rows : List NotificationRead)
    → is_read user key rows ≡ (if times_read user key rows == 0 then false else true)
is_read-times_read user key [] = refl
is_read-times_read user key (row ∷ rows) = ground (arith, is_read-times_read user key rows)

times_read-added_rows :
    (u user : ℕ) (key : String) (keys : List String) (table : List NotificationRead)
    → times_read u key (added_rows user keys table)
      ≡ (if user == u && (times_read u key table == 0) then times_named key keys else 0)
unfolding added_rows
times_read-added_rows u user key [] table = ground arith
times_read-added_rows u user key (k ∷ keys) table = ground (
  arith,
  times_read-added_rows u user key keys table,
  eq_iff k key,
  ==_iff user u,
  is_read-times_read user k table,
)

-- After all of a list of notifications are marked, a notification has as many rows as before; if it
-- had none and belongs to the user, it has as many as the list names it, so that one that is named
-- twice gets two rows.
pub mark_all-times_read :
    (u user : ℕ) (key : String) (keys : List String) (table : List NotificationRead)
    → times_read u key (mark_all_notifications_read user keys table).0 ≡ (
        if user == u && (times_read u key table == 0)
        then times_named key keys
        else times_read u key table)
unfolding mark_all_notifications_read
mark_all-times_read u user key keys table = ground (
  arith,
  times_read-append u key table (added_rows user keys table),
  times_read-added_rows u user key keys table,
)

is_read_same :
    (u user : ℕ) (k key : String) (table : List NotificationRead)
    → (user == u && str_eq key k) ≡ true
    → is_read user key table ≡ is_read u k table
is_read_same u user k key [] h = refl
is_read_same u user k key (row ∷ rows) h = ground (
  arith,
  h,
  is_read_same u user k key rows h,
  eq_iff key k,
  eq_iff row.notification_key key,
  eq_iff row.notification_key k,
)

-- Marking one notification makes exactly it read for the user, and marking it again changes
-- nothing.
pub mark-is_read :
    (u user : ℕ) (k key : String) (table : List NotificationRead)
    → (is_read u k (mark_notification_read user key table)
        ≡ (user == u && str_eq key k || is_read u k table))
      × (mark_notification_read user key (mark_notification_read user key table)
          ≡ mark_notification_read user key table)
unfolding mark_notification_read
mark-is_read u user k key table =
    let row : NotificationRead = record { user_id = user; notification_key = key } in
    (
      elim (Bool-cases (is_read user key table)) [
        | inl e ↦ rw e (ground (arith, e, is_read_same u user k key table))
        | inr e ↦ rw e (ground (arith, any-append (is_row u k) table (row ∷ [])))
      ],
      elim (Bool-cases (is_read user key table)) [
        | inl e ↦ ground (arith, e)
        | inr e ↦ ground (arith, e, any-append (is_row user key) table (row ∷ []), eq_iff key key)
      ],
    )

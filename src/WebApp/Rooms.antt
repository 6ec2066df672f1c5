-- ===== src/WebApp/Rooms.antt =====
-- WebApp/room.cpp: the rooms of the theaters, and the pages of a list. `new_id` is the number that
-- the sequence of the rooms gives, and `fits` says whether a text fits into its column.
pub mod Changes
use movie_dbproject.Prelude.{
  ℕ, Bool, true, false, not, ◌&&◌, Option, none, some, List, [], ◌∷◌, ◌++◌, ◌==◌, if◌then◌else◌,
  is_some, select,
}
use movie_dbproject.Prelude.Bytes.{Bytes, codes, same}
use movie_dbproject.Prelude.Int.{ℤ, pos, negsuc}
use movie_dbproject.Bserv.Utils.Params.{is_empty}
use movie_dbproject.WebApp.Db.{
  Room, Db, DbError, Executed, rows, fails, foreign_key_violation, value_too_long, update_where,
  all_rows, any_row, is_id,
}
use movie_dbproject.WebApp.Flow.{
  refuse, Request, Handler, Exception, url_not_found, bad_value, bad_number, ◌>>=◌, ◌>>◌, pure,
  throw_if, refuse_if, succeed, or_throw, executed, executed_or_what, catch_what, begin, commit,
  optional_row,
}
use movie_dbproject.WebApp.Fields.{
  c_str, string_param, text_field, number_field, or_old, or_old_number,
}
use movie_dbproject.WebApp.Permissions.{Roles, check_session_permission}

-- `select * from screening_rooms where room_name = ?`
unfoldable pub get_room : Db → Bytes → Handler (Option Room)
get_room d room_name = optional_row (select (λ (r : Room). same r.room_name room_name) d.rooms)

-- `select * from screening_rooms where room_id = ?`
unfoldable pub get_room_by_id : Db → ℤ → Handler (Option Room)
get_room_by_id d room_id = optional_row (select (λ (r : Room). is_id room_id r.room_id) d.rooms)

-- The columns that a request gives: the name, the theater and the capacity.
pub record RoomFields : Type 0 where
  pub room_name : Bytes
  pub theater_id : ℤ
  pub capacity : ℤ

-- The foreign key of a room.
unfoldable pub has_theater : Db → ℤ → Bool
has_theater d theater_id = any_row (λ i. is_id theater_id i) d.theaters

module _ (fits : Bytes → Bool) where
  -- `insert into screening_rooms …`
  unfoldable pub insert_room : ℕ → RoomFields → Db → Executed Db
  insert_room new_id f d =
      if not (fits f.room_name)
      then fails value_too_long
      else if not (has_theater d f.theater_id)
      then fails foreign_key_violation
      else rows (record d {
        rooms =
            d.rooms
            ++ record {
              room_id = new_id;
              room_name = f.room_name;
              theater_id = f.theater_id;
              capacity = f.capacity;
            }
              ∷ [];
      })

  -- `update screening_rooms set … where room_id = ?`
  unfoldable pub update_room : ℤ → RoomFields → Db → Executed Db
  unfolding update_where all_rows is_id
  update_room room_id f d =
      let changed =
        update_where (λ (r : Room). is_id room_id r.room_id)
          (λ r. record r {
            room_name = or_old f.room_name r.room_name;
            theater_id = or_old_number f.theater_id r.theater_id;
            capacity = or_old_number f.capacity r.capacity;
          })
          d.rooms in
      let found = select (λ (r : Room). is_id room_id r.room_id) changed in
      if not (all_rows (λ (r : Room). fits r.room_name) found)
      then fails value_too_long
      else if not (all_rows (λ (r : Room). has_theater d r.theater_id) found)
      then fails foreign_key_violation
      else rows (record d { rooms = changed })

  -- The numbers of the insertion, which are read inside its `try`.
  abbrev pub registered_fields : Request → Handler RoomFields
  registered_fields request = do
    theater_id ← number_field request (codes "theater_id")
    capacity ← number_field request (codes "capacity")
    pure (record { room_name = []; theater_id = theater_id; capacity = capacity })

  unfoldable pub room_register : Roles → ℕ → Request → Handler (Unit {0})
  room_register roles new_id request = do
    throw_if (not request.is_post) url_not_found
    check_session_permission roles (codes "modify_room")
    room_name ← or_throw (string_param request.params (codes "room_name")) bad_value
    d ← begin
    opt_room ← get_room d room_name
    refuse_if (is_some opt_room) "Screening room name exists"
    f ← catch_what (registered_fields request)
    d ← executed_or_what (insert_room new_id (record f { room_name = room_name }) d)
    commit d
    succeed "Screening room registered"

  abbrev pub modified_fields : Request → Handler RoomFields
  modified_fields request = do
    password ← text_field request (codes "password")
    room_name ← text_field request (codes "room_name")
    theater_id ← number_field request (codes "theater_id")
    capacity ← number_field request (codes "capacity")
    pure (record { room_name = room_name; theater_id = theater_id; capacity = capacity })

  unfoldable pub room_modify : Roles → ℤ → Request → Handler (Unit {0})
  room_modify roles room_id request = do
    throw_if (not request.is_post) url_not_found
    check_session_permission roles (codes "modify_room")
    d ← begin
    opt_room ← get_room_by_id d room_id
    refuse_if (not (is_some opt_room)) "Screening room does not exist"
    f ← modified_fields request
    d ← executed (update_room room_id f d)
    commit d
    succeed "Screening room modified"

-- `find_room`: the room that has a name, without its id.
unfoldable pub find_room : Db → Bytes → Handler RoomFields
find_room d room_name = do
  room ← get_room d (c_str room_name)
  elim room [
    | none ↦ refuse "Requested screening room does not exist"
    | some r ↦
        pure (record { room_name = r.room_name; theater_id = r.theater_id; capacity = r.capacity })
  ]

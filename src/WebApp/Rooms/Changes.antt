-- ===== src/WebApp/Rooms/Changes.antt =====
-- Who may change the rooms, and what changes.
use movie_dbproject.Prelude.{map, ℕ, ◌≡◌, refl, Bool, not, [], ◌∷◌, ◌++◌, arith, is_some, select}
use movie_dbproject.Prelude.Bytes.{Bytes, codes, same}
use movie_dbproject.Prelude.Int.{ℤ}
use movie_dbproject.WebApp.Db.{Room, Db, rows, is_id}
use movie_dbproject.WebApp.Flow.{
  State, Handler, Request, ◌>>=◌, ◌>>◌, url_not_found, bad_value, refuse_if, succeed, commit,
  executed, executed_or_what, catch_what, optional_row,
}
use movie_dbproject.WebApp.Flow.Ending.{
  Atomically, IsCheck, Atomically-check, Atomically-begin, Atomically-executed,
  Atomically-executed_or_what, Atomically-absent, Atomically-present, IsCheck-bind,
  catch_what-IsCheck, pure-IsCheck, throw_if-IsCheck, or_throw-IsCheck,
}
use movie_dbproject.WebApp.Fields.{or_old, or_old_number, string_param, text_field, number_field}
use movie_dbproject.WebApp.Fields.Checks.{text_field-IsCheck, number_field-IsCheck}
use movie_dbproject.WebApp.Db.Rows.{map-update_where}
use movie_dbproject.WebApp.Permissions.{Roles}
use movie_dbproject.WebApp.Permissions.Guard.{Allowed, Atomically-permission}
use movie_dbproject.WebApp.Rooms.{
  RoomFields, get_room, get_room_by_id, insert_room, update_room, registered_fields,
  modified_fields, room_register, room_modify,
}

-- Of the database and the session only the rooms have changed.
abbrev pub OnlyRooms : State → State → Type 0
OnlyRooms s s' = s' ≡ record s { db = record s.db { rooms = s'.db.rooms } }

-- A room is added, whose name no room had.
pub record Added (new_id : ℕ) (s s' : State) : Type 0 where
  pub room : Room
  pub numbered : room.room_id ≡ new_id
  pub fresh : select (λ (r : Room). same r.room_name room.room_name) s.db.rooms ≡ []
  pub added : s'.db.rooms ≡ s.db.rooms ++ room ∷ []
  pub only : OnlyRooms s s'

registered_fields-IsCheck :
    (fits : Bytes → Bool) (request : Request) → IsCheck (registered_fields fits request)
registered_fields-IsCheck fits request =
    IsCheck-bind (number_field request (codes "theater_id")) _
      (number_field-IsCheck request (codes "theater_id"))
      λ t.
        IsCheck-bind (number_field request (codes "capacity")) _
          (number_field-IsCheck request (codes "capacity")) λ c. pure-IsCheck _

insert_room-Added :
    (fits : Bytes → Bool) (new_id : ℕ) (f : RoomFields) (s : State) (d : Db)
    → select (λ (r : Room). same r.room_name f.room_name) s.db.rooms ≡ []
    → insert_room fits new_id f s.db ≡ rows d
    → Added new_id s (record s { db = d })
unfolding insert_room
insert_room-Added fits new_id f s d fresh e = record {
  room = record {
    room_id = new_id;
    room_name = f.room_name;
    theater_id = f.theater_id;
    capacity = f.capacity;
  };
  numbered = refl;
  fresh = fresh;
  added = ground (arith, e);
  only = ground (arith, e);
}

-- `room_register`, whatever the request is: it replies with success, the session's user has the
-- permission `modify_room`, and exactly one room is added, under a name that no room had; or the
-- database and the session are as they were.
pub room_register-Added :
    (fits : Bytes → Bool) (roles : Roles) (new_id : ℕ) (request : Request) (s : State)
    → Atomically
        (λ s'. Allowed roles (codes "modify_room") s × Added new_id s s')
        s
        (room_register fits roles new_id request)
unfolding room_register get_room
room_register-Added fits roles new_id request s =
    Atomically-check _ _ _ s (throw_if-IsCheck (not request.is_post) url_not_found) λ _.
      Atomically-permission _ roles (codes "modify_room") _ s λ allowed.
        Atomically-check _ _ _ s
          (or_throw-IsCheck (string_param request.params (codes "room_name")) bad_value)
          λ room_name. Atomically-begin _ (behind_begin room_name) s (
            Atomically-absent _ (select (λ (r : Room). same r.room_name room_name) s.db.rooms)
              "Screening room name exists" _ s
              λ fresh.
                Atomically-check _ _ _ s
                  (catch_what-IsCheck _ (registered_fields-IsCheck fits request))
                  λ f.
                    Atomically-executed_or_what _
                      (insert_room fits new_id (record f { room_name = room_name }) s.db)
                      "Screening room registered" s
                      λ d e. (
                        allowed,
                        insert_room-Added fits new_id (record f { room_name = room_name }) s d fresh
                            e,
                      ))
  where
    behind_begin : Bytes → Db → Handler (Unit {0})
    behind_begin room_name d =
        optional_row (select (λ (r : Room). same r.room_name room_name) d.rooms) >>= λ o.
        refuse_if (is_some o) "Screening room name exists"
        >> (catch_what (registered_fields fits request) >>= λ f.
            executed_or_what (insert_room fits new_id (record f { room_name = room_name }) d)
            >>= λ d. commit d >> succeed "Screening room registered")

-- What a change leaves of a room: its id.
pub record Changed (s s' : State) : Type 0 where
  pub ids : map (λ (r : Room). r.room_id) s'.db.rooms ≡ map (λ (r : Room). r.room_id) s.db.rooms
  pub only : OnlyRooms s s'

update_room-Changed :
    (fits : Bytes → Bool) (room_id : ℤ) (f : RoomFields) (s : State) (d : Db)
    → update_room fits room_id f s.db ≡ rows d
    → Changed s (record s { db = d })
unfolding update_room
update_room-Changed fits room_id f s d e =
    let same_ids =
      map-update_where (λ (r : Room). r.room_id) (λ r. is_id room_id r.room_id)
        (λ r. record r {
          room_name = or_old f.room_name r.room_name;
          theater_id = or_old_number f.theater_id r.theater_id;
          capacity = or_old_number f.capacity r.capacity;
        })
        s.db.rooms (λ r. refl) in
    record { ids = ground (arith, e, same_ids); only = ground (arith, e) }

modified_fields-IsCheck :
    (fits : Bytes → Bool) (request : Request) → IsCheck (modified_fields fits request)
modified_fields-IsCheck fits request =
    IsCheck-bind (text_field request (codes "password")) _
      (text_field-IsCheck request (codes "password"))
      λ _.
        IsCheck-bind (text_field request (codes "room_name")) _
          (text_field-IsCheck request (codes "room_name"))
          λ n.
            IsCheck-bind (number_field request (codes "theater_id")) _
              (number_field-IsCheck request (codes "theater_id"))
              λ t.
                IsCheck-bind (number_field request (codes "capacity")) _
                  (number_field-IsCheck request (codes "capacity")) λ c. pure-IsCheck _

-- `room_modify`, whatever the request is: it replies with success, the session's user has the
-- permission `modify_room`, the room was there, and no room is added, removed or given another id;
-- or the database and the session are as they were.
pub room_modify-Changed :
    (fits : Bytes → Bool) (roles : Roles) (room_id : ℤ) (request : Request) (s : State)
    → Atomically
        (λ s'.
          Allowed roles (codes "modify_room") s
          × ((r : Room) × (select (λ (r : Room). is_id room_id r.room_id) s.db.rooms ≡ r ∷ []))
          × Changed s s')
        s
        (room_modify fits roles room_id request)
unfolding room_modify get_room_by_id
room_modify-Changed fits roles room_id request s =
    Atomically-check _ _ _ s (throw_if-IsCheck (not request.is_post) url_not_found) λ _.
      Atomically-permission _ roles (codes "modify_room") _ s λ allowed.
        Atomically-begin _ behind_begin s (
          Atomically-present _ (select (λ (r : Room). is_id room_id r.room_id) s.db.rooms)
            "Screening room does not exist" _ s
            λ r found. Atomically-check _ _ _ s (modified_fields-IsCheck fits request) λ f.
              Atomically-executed _ (update_room fits room_id f s.db) "Screening room modified" s
                λ d e. (allowed, (r, found), update_room-Changed fits room_id f s d e))
  where
    behind_begin : Db → Handler (Unit {0})
    behind_begin d = optional_row (select (λ (r : Room). is_id room_id r.room_id) d.rooms) >>= λ o.
        refuse_if (not (is_some o)) "Screening room does not exist"
        >> (modified_fields fits request >>= λ f. executed (update_room fits room_id f d) >>= λ d.
            commit d >> succeed "Screening room modified")

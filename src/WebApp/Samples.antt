-- ===== src/WebApp/Samples.antt =====
-- A small database, for the runs of the handlers and pages.
use movie_dbproject.Prelude.{true, false, some, [], ◌∷◌}
use movie_dbproject.Prelude.Bytes.{codes}
use movie_dbproject.Prelude.Int.{pos}
use movie_dbproject.WebApp.Db.{User, Movie, Screening, Seat, Ticket, Db}
use movie_dbproject.WebApp.Flow.{State}

abbrev pub ada : User
ada = record {
  id = 1;
  username = codes "ada";
  password = [];
  is_superuser = false;
  first_name = [];
  last_name = [];
  email = [];
  is_active = true;
  roal = codes "user";
  balance = pos 50000000;
}

abbrev pub bob : User
bob = record {
  id = 2;
  username = codes "bob";
  password = [];
  is_superuser = false;
  first_name = [];
  last_name = [];
  email = [];
  is_active = true;
  roal = codes "user";
  balance = pos 0;
}

abbrev pub film : Movie
film = record {
  movie_id = 4;
  moviename = codes "Film";
  starname = [];
  detail = [];
  running_time = pos 90;
  genre = [];
  avg_rating = record { total = pos 0; count = 0 };
  poster = [];
  box_office = pos 100;
  num_participants = pos 5;
  release_date = pos 2020;
  box_office_unit = [];
  foreign_name = [];
  location = [];
  reviewed = true;
}

abbrev pub showing : Screening
showing = record {
  screening_id = 3;
  room_id = 1;
  movie_id = 4;
  time = codes "20:00";
  price = pos 30;
  showing_date = codes "1";
}

-- The seat is bob's already.
abbrev pub seat_a1 : Seat
seat_a1 = record { seat_id = 8; screening_id = 3; seat_name = codes "A1"; user_id = some 2 }

abbrev pub ticket_6 : Ticket
ticket_6 = record {
  ticket_id = 6;
  user_id = 1;
  screening_id = 3;
  seat_id = 8;
  price = pos 30;
  refunded = false;
}

abbrev pub cinema : Db
cinema = record {
  users = ada ∷ bob ∷ [];
  movies = film ∷ [];
  rooms = [];
  screenings = showing ∷ [];
  seats = seat_a1 ∷ [];
  tickets = ticket_6 ∷ [];
  comments = [];
  announcements = [];
  theaters = [];
}

abbrev pub at_cinema : State
at_cinema = record { db = cinema; session = record { user = some ada } }

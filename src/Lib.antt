-- ===== src/Lib.antt =====
-- A verification library for MovieDBProject, a web application for a cinema over the C++ framework
-- bserv: selling tickets, users and their roles, movies, screenings and comments.
--
-- The program. bserv/ is the framework: it reads a request, finds the session of its cookie
-- (bserv/session.cpp), parses the parameters of its path and body (bserv/utils.cpp), takes a database
-- connection from a pool (bserv/database.cpp) and calls the handler of the path. WebApp/ is the
-- application: a handler checks the session and its permission, runs statements in one transaction
-- and replies with a JSON object.
--
-- The modules.
--   Prelude         Boolean tests, lists, byte texts, integers, function maps and association lists.
--   Bserv.Utils     bserv/utils.cpp: Url (decode_url, encode_url), Params (parse_params, parse_url),
--                   Security (random strings, passwords), Mime (mime_type) and Files (read_bin,
--                   serve).
--   Bserv.Database  bserv/database.cpp and bserv/include/bserv/database.hpp: Pool
--                   (db_connection_manager as steps of threads), Query (the parameters and the
--                   substitution of db_transaction::exec) and Results (db_relation_to_object).
--   Bserv.Session   bserv/session.cpp: memory_session_manager, with its ordered set in Queue, the
--                   invariant of its containers in Invariant and what its calls do in Calls.
--   Bserv.Router    bserv/include/bserv/router.hpp: Pattern (get_re_url and the match of a path),
--                   Resources (request_resources), Placeholders (get_parameter_data for each
--                   placeholder, and the arguments of a handler) with Body for json_params and
--                   Cookie for the session, and Dispatch (router::operator()) with Apart.
--   Bserv.Server    bserv/bserv.cpp: handle_request, with what it answers in Answers, and the steps of
--                   http_session in Connection.
--   Bserv.Client    bserv/client.cpp and bserv/include/bserv/client.hpp: http_client_send with the
--                   calls that it makes, get_request and http_client.
--   WebApp.Startup  WebApp/WebApp.cpp, main: reading the configuration (bserv/include/bserv/config.hpp),
--                   the roots of the files (WebApp/rendering.cpp) and the number of threads.
--   WebApp.Routes   WebApp/WebApp.cpp: the tables of routes, under the router in Table.
--   WebApp.Db       the tables, a row as a record; Flow: the frame of a handler, a monad with early
--                   returns and exceptions; Fields: reading parameters (WebApp/handlers.cpp).
--                   Flow.Ending says how a handler ends, and has a lemma for each of its steps.
--   WebApp.Permissions  WebApp/permissions.cpp; Guard is about handlers behind a permission.
--   WebApp.Users    WebApp/users.cpp: user_register, user_modify, user_login, user_logout, add_funds.
--   WebApp.Movies   WebApp/movies.cpp: movie_register, movie_modify, review, announcement_add,
--                   with what they change in Changes and Named.
--   WebApp.Rooms    WebApp/room.cpp: room_register, room_modify and find_room.
--   WebApp.Screenings  WebApp/movie_manage.cpp: form_add_screening.
--   WebApp.Comments  WebApp/comments.cpp: add_comment and modify_comment.
--   WebApp.Pages    the numbers of a page of a list, as in WebApp/users.cpp, redirect_to_users.
--   WebApp.Views    the pages: Lists (users, rooms, movies), Details (comments, screenings, tickets of
--                   a movie), MyCenter (WebApp/mycenter.cpp), Forms (every form_ function) and
--                   Lookups (find_user, find_movie); Readers and Shown say what pages do and show.
--   WebApp.Tickets  WebApp/tickets.cpp: buy_ticket and refund_ticket, with reload_user_info of
--                   WebApp/users.cpp; Committed (what a commit has done), Effects (the same row by
--                   row), Outcomes, Atomic and Money.
-- Functions have the names of the C++ functions. A text is the list of its bytes. `none`, an error or
-- `throws` stands for an exception.
--
-- Bounds and fuel. Loops over texts and containers are structural recursion. The decimal digits of a
-- number are written on fuel, one round more than the number, and each round divides by ten. The
-- loops that draw random keys run over the values that the generators draw; a theorem that needs a
-- result asks that a fresh value is among them. The sums that the sales keep of a movie are checked
-- against the range of the SQL type `integer`; std::stoi gives no number outside it. A balance is in
-- millionths, which std::to_string gives a double.
--
-- Parameters. The hash and Base64 of Crypto++, the quoting of libpqxx, the numbers that a generator
-- draws, the number that a sequence of the database gives and the test whether a text fits into a
-- column are arguments of the definitions. So are the JSON library, the handlers that the router
-- calls, the end of a connection that boost::beast asks for, the files that can be opened, and what
-- the network does at each call of the client.
--
-- Not modelled. Sockets, websockets, logging, the template engine and the listener. A handler runs
-- by itself: interleaved transactions of two handlers are not modelled. A table is a list: the rows
-- come in one order within a handler, also where a query has no `order by`. Which thread owns a
-- mutex is not modelled.
pub mod Prelude
pub mod Bserv
pub mod WebApp

-- ===== src/WebApp/Routes.antt =====
-- WebApp/WebApp.cpp: the two tables of routes that `main` gives to the server. The handlers that
-- this library models stand here by their names; the router runs them through its parameter `call`.
pub mod Table
mod Tests
use movie_dbproject.Prelude.{Bool, Option, none, some, List, [], ◌∷◌, ◌++◌, ◌>>=◌}
use movie_dbproject.Prelude.Bytes.{Bytes, codes}
use movie_dbproject.Bserv.Router.Placeholders.{
  Placeholder, url_param, session, request, response, json_params, db_connection_ptr,
  websocket_server_ptr, constant,
}
use movie_dbproject.Bserv.Router.Dispatch.{PathHolder, make_path}

-- The functions of handlers.h that have a route.
pub data Handler : Type 0 where
  serve_static_files view_movies form_login form_logout view_users form_add_user : Handler
  form_register form_modify_user movie_register find_movie form_add_movie form_modify_movie :
      Handler
  form_modify_announcement form_add_funds buy_ticket_page form_buy_ticket form_refund_ticket :
      Handler
  manage_movie_page form_add_screening form_modify_screening room_register find_room : Handler
  view_rooms form_add_room form_modify_room view_comments form_add_comment : Handler
  form_modify_comment form_review view_mycenter ws_echo : Handler

-- The arguments of a call of `make_path`.
pub record Route : Type 0 where
  pub url : Bytes
  pub pf : Handler
  pub params : List Placeholder

abbrev route : Bytes → Handler → List Placeholder → Route
route url pf params = record { url = url; pf = pf; params = params }

-- Static files, the entry, logging in and out, and users.
unfoldable pub user_routes : List Route
user_routes =
    route (codes "/statics/<path>") serve_static_files (response ∷ url_param 1 ∷ [])
    ∷ route (codes "/") view_movies
        (db_connection_ptr ∷ json_params ∷ session ∷ response ∷ constant (codes "1") ∷ [])
    ∷ route (codes "/form_login") form_login
        (request ∷ response ∷ json_params ∷ db_connection_ptr ∷ session ∷ [])
    ∷ route (codes "/form_logout") form_logout
        (db_connection_ptr ∷ json_params ∷ session ∷ response ∷ [])
    ∷ route (codes "/users") view_users
        (db_connection_ptr ∷ session ∷ response ∷ constant (codes "1") ∷ [])
    ∷ route (codes "/users/<int>") view_users
        (db_connection_ptr ∷ session ∷ response ∷ url_param 1 ∷ [])
    ∷ route (codes "/form_add_user") form_add_user
        (request ∷ response ∷ json_params ∷ db_connection_ptr ∷ session ∷ [])
    ∷ route (codes "/form_register") form_register
        (request ∷ response ∷ json_params ∷ db_connection_ptr ∷ session ∷ [])
    ∷ route (codes "/form_modify_user/<int>") form_modify_user
        (request ∷ response ∷ json_params ∷ db_connection_ptr ∷ session ∷ url_param 1 ∷ [])
    ∷ []

-- Movies, announcements, funds, tickets and screenings.
unfoldable pub movie_routes : List Route
movie_routes =
    route (codes "/movie_register") movie_register
      (request ∷ json_params ∷ db_connection_ptr ∷ session ∷ [])
    ∷ route (codes "/findmovie/<str>") find_movie (db_connection_ptr ∷ session ∷ url_param 1 ∷ [])
    ∷ route (codes "/movies") view_movies
        (db_connection_ptr ∷ json_params ∷ session ∷ response ∷ constant (codes "1") ∷ [])
    ∷ route (codes "/movies/<int>") view_movies
        (db_connection_ptr ∷ json_params ∷ session ∷ response ∷ url_param 1 ∷ [])
    ∷ route (codes "/form_add_movie") form_add_movie
        (request ∷ response ∷ json_params ∷ db_connection_ptr ∷ session ∷ [])
    ∷ route (codes "/form_modify_movie/<int>") form_modify_movie
        (request ∷ response ∷ json_params ∷ db_connection_ptr ∷ session ∷ url_param 1 ∷ [])
    ∷ route (codes "/announcement_update") form_modify_announcement
        (request ∷ response ∷ json_params ∷ db_connection_ptr ∷ session ∷ [])
    ∷ route (codes "/add_balance") form_add_funds
        (request ∷ response ∷ json_params ∷ db_connection_ptr ∷ session ∷ [])
    ∷ route (codes "/buyticket/<int>") buy_ticket_page
        (request ∷ response ∷ json_params ∷ db_connection_ptr ∷ session ∷ url_param 1 ∷ [])
    ∷ route (codes "/form_buy_ticket") form_buy_ticket
        (request ∷ response ∷ json_params ∷ db_connection_ptr ∷ session ∷ [])
    ∷ route (codes "/form_refund_ticket/<int>") form_refund_ticket
        (request ∷ response ∷ json_params ∷ db_connection_ptr ∷ session ∷ url_param 1 ∷ [])
    ∷ route (codes "/managemovie/<int>") manage_movie_page
        (request ∷ response ∷ json_params ∷ db_connection_ptr ∷ session ∷ url_param 1 ∷ [])
    ∷ route (codes "/form_add_screening/<int>") form_add_screening
        (request ∷ response ∷ json_params ∷ db_connection_ptr ∷ session ∷ url_param 1 ∷ [])
    ∷ route (codes "/form_modify_screening/<int>") form_modify_screening
        (request ∷ response ∷ json_params ∷ db_connection_ptr ∷ session ∷ url_param 1 ∷ [])
    ∷ []

-- Rooms, comments, reviews and the page of the user.
unfoldable pub room_routes : List Route
room_routes =
    route (codes "/room_register") room_register
      (request ∷ json_params ∷ db_connection_ptr ∷ session ∷ [])
    ∷ route (codes "/findroom/<str>") find_room (db_connection_ptr ∷ session ∷ url_param 1 ∷ [])
    ∷ route (codes "/screening_rooms") view_rooms
        (db_connection_ptr ∷ session ∷ response ∷ constant (codes "1") ∷ [])
    ∷ route (codes "/screening_rooms/<int>") view_rooms
        (db_connection_ptr ∷ session ∷ response ∷ url_param 1 ∷ [])
    ∷ route (codes "/form_add_room") form_add_room
        (request ∷ response ∷ json_params ∷ db_connection_ptr ∷ session ∷ [])
    ∷ route (codes "/form_modify_room/<int>") form_modify_room
        (request ∷ response ∷ json_params ∷ db_connection_ptr ∷ session ∷ url_param 1 ∷ [])
    ∷ route (codes "/managecomments/<int>") view_comments
        (db_connection_ptr ∷ session ∷ response ∷ url_param 1 ∷ [])
    ∷ route (codes "/form_add_comment/<int>") form_add_comment
        (request ∷ response ∷ json_params ∷ db_connection_ptr ∷ session ∷ url_param 1 ∷ [])
    ∷ route (codes "/form_modify_comment/<int>") form_modify_comment
        (request ∷ response ∷ json_params ∷ db_connection_ptr ∷ session ∷ url_param 1 ∷ [])
    ∷ route (codes "/form_review") form_review
        (request ∷ response ∷ json_params ∷ db_connection_ptr ∷ session ∷ [])
    ∷ route (codes "/mycenter") view_mycenter (db_connection_ptr ∷ session ∷ response ∷ [])
    ∷ []

-- The table for websockets.
unfoldable pub websocket_routes : List Route
websocket_routes = route (codes "/echo") ws_echo (session ∷ websocket_server_ptr ∷ []) ∷ []

-- The calls of `make_path`; `none` where one of the urls is no expression that `compile` knows.
unfoldable pub make_paths : List Route → Option (List (PathHolder Handler))
unfolding make_path
make_paths [] = some []
make_paths (r ∷ routes) = do
  p ← make_path r.url r.pf r.params
  paths ← make_paths routes
  some (p ∷ paths)

abbrev paths_or_nothing : Option (List (PathHolder Handler)) → List (PathHolder Handler)
paths_or_nothing none = []
paths_or_nothing (some paths) = paths

-- The tables of the server.
unfoldable pub paths : List (PathHolder Handler)
unfolding make_paths user_routes movie_routes room_routes
paths = paths_or_nothing (make_paths (user_routes ++ (movie_routes ++ room_routes)))

unfoldable pub websocket_paths : List (PathHolder Handler)
unfolding make_paths websocket_routes
websocket_paths = paths_or_nothing (make_paths websocket_routes)

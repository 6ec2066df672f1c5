-- ===== src/WebApp/Views/Tests.antt =====
-- Runs of the pages, and their theorems at concrete values.
use movie_dbproject.Prelude.{
  ℕ, ◌≡◌, refl, Bool, true, false, none, some, [], ◌∷◌, All, select, ◌++◌,
}
use movie_dbproject.Prelude.Bytes.{Bytes, codes, same}
use movie_dbproject.Prelude.Int.{pos, negsuc}
use movie_dbproject.Prelude.Dict.{Dict, lookup}
use movie_dbproject.Bserv.Database.Query.{Quoting, get_value, json_string}
use movie_dbproject.WebApp.Db.{Movie, Db}
use movie_dbproject.WebApp.Flow.{returns, Json, State, Request, text, throws, bad_value}
use movie_dbproject.WebApp.Permissions.{initial_roles, check_permission, get_permission_for_session}
use movie_dbproject.WebApp.Screenings.{may}
use movie_dbproject.WebApp.Comments.{modify_comment}
use movie_dbproject.WebApp.Samples.{ada, film, cinema}
use movie_dbproject.WebApp.Fields.{stoi, get_or_empty, get_stoi_or_zero}
use movie_dbproject.WebApp.Fields.Digits.{get_stoi_or_zero-get_value}
use movie_dbproject.WebApp.Pages.{pagination, numbers_of}
use movie_dbproject.WebApp.Views.{Page}
use movie_dbproject.WebApp.Views.Lists.{
  MoviesPage, redirect_to_users, redirect_to_rooms, redirect_to_movies,
}
use movie_dbproject.WebApp.Views.Details.{redirect_to_comments, manage_movie_page, buy_ticket_page}
use movie_dbproject.WebApp.Views.MyCenter.{redirect_to_mycenter}
use movie_dbproject.WebApp.Views.Forms.{form_modify_comment}
use movie_dbproject.WebApp.Views.Readers.{pages_only_read, form_modify_comment-refused}
use movie_dbproject.WebApp.Views.Shown.{redirect_to_movies-reviewed}

-- The cinema with a room, a film that is not reviewed, and an announcement.
abbrev house : Db
house = record cinema {
  rooms =
      record { room_id = 1; room_name = codes "Hall"; theater_id = pos 1; capacity = pos 2 } ∷ [];
  movies = film ∷ record film { movie_id = 5; reviewed = false } ∷ [];
  announcements = record { id = 1; title = codes "Hi"; content = [] } ∷ [];
}

abbrev at_house : State
at_house = record { db = house; session = record { user = some ada } }

abbrev plain : Request
plain = record { is_post = true; params = (codes "s", json_string (codes "F")) ∷ [] }

-- A comparison that every text passes.
abbrev any_text : Bytes → Bytes → Bool
any_text pattern s = true

abbrev any_length : Bytes → Bool
any_length s = true

abbrev salted : Bytes → Bytes → ℕ → Bytes
salted password salt n = salt

abbrev plain_text : Bytes → Bytes
plain_text s = s

pages_only_read_example :
    ((redirect_to_users initial_roles (pos 1) none at_house).1 ≡ at_house)
    × ((redirect_to_rooms initial_roles (pos 1) none at_house).1 ≡ at_house)
    × ((redirect_to_movies any_text initial_roles plain (pos 1) none at_house).1 ≡ at_house)
    × ((redirect_to_comments stoi initial_roles (codes "4") none at_house).1 ≡ at_house)
    × ((redirect_to_mycenter initial_roles none at_house).1 ≡ at_house)
    × ((manage_movie_page stoi initial_roles (codes "4") at_house).1 ≡ at_house)
    × ((buy_ticket_page stoi initial_roles (codes "4") plain at_house).1 ≡ at_house)
pages_only_read_example =
    pages_only_read any_text stoi initial_roles plain (pos 1) (codes "4") none at_house

-- A user with the permission of its role only, who has no comment of the number.
form_modify_comment-refused_example :
    (modify_comment any_length initial_roles (codes "1") plain at_house ≡ (
      returns (record { success = false; message = text "Permission denied"; movie_id = none }),
      at_house,
    ))
    × (form_modify_comment any_length stoi initial_roles (codes "1") plain at_house
        ≡ (throws bad_value, at_house))
unfolding stoi select lookup same check_permission
form_modify_comment-refused_example =
    form_modify_comment-refused any_length stoi initial_roles (codes "1") (pos 1) plain ada at_house
      refl refl refl refl refl

abbrev movies_page : Page MoviesPage
movies_page = record {
  reply = none;
  content = record {
    movies = record {
      rows = film ∷ [];
      numbers = some (record {
        total = 1;
        previous = none;
        following = none;
        left_ellipsis = false;
        right_ellipsis = false;
        current = 1;
        pages_left = [];
        pages_right = [];
      });
    };
    search_kw = codes "F";
    announcement_title = codes "Hi";
    announcement_content = [];
  };
  permission = (codes "add_comment", true) ∷ [];
  user = some ada;
}

redirect_to_movies-reviewed_example :
    All (λ (m : Movie). m.reviewed ≡ true) movies_page.content.movies.rows
unfolding may redirect_to_movies stoi select same lookup check_permission get_or_empty pagination
    get_permission_for_session numbers_of
redirect_to_movies-reviewed_example =
    redirect_to_movies-reviewed any_text initial_roles plain (pos 1) none at_house at_house
      movies_page refl refl

abbrev form_quoting : Quoting Bytes
form_quoting = record {
  quote = λ s. codes "'" ++ s ++ codes "'";
  quote_name = λ s. s;
  double_text = λ s. s;
}

abbrev price_form : Dict Json
price_form =
    (codes "seat", json_string (codes "A1")) ∷ (codes "count", json_string (codes "-120")) ∷ []

get_stoi_or_zero-get_value_example : get_stoi_or_zero price_form (codes "count") ≡ some (negsuc 119)
unfolding lookup same get_value
get_stoi_or_zero-get_value_example =
    get_stoi_or_zero-get_value form_quoting price_form (codes "count") (negsuc 119) refl refl

-- ===== src/Bserv/Utils/Files.antt =====
-- bserv/utils.cpp, `file`: `read_bin` and `serve`. The files that can be opened, by their names,
-- are a parameter.
use movie_dbproject.Prelude.{true, Option, none, some, [], ◌∷◌, ◌++◌, ◌⊎◌, inl, inr}
use movie_dbproject.Prelude.Bytes.{Bytes}
use movie_dbproject.Bserv.Utils.Mime.{mime_type}
use movie_dbproject.Bserv.Router.Resources.{Response, Thrown, url_not_found}

-- The bytes up to the end of a file, one by one.
read_bytes : Bytes → Bytes → Bytes
read_bytes res [] = res
read_bytes res (c ∷ fin) = read_bytes (res ++ c ∷ []) fin

module _ (open_file : Bytes → Option Bytes) where
  -- `none` is `file_not_found`.
  unfoldable pub read_bin : Bytes → Option Bytes
  unfolding read_bytes
  read_bin filename = elim (open_file filename) [
    | none ↦ none
    | some fin ↦ some (read_bytes [] fin)
  ]

  -- `inl` is an exception that `serve` ends with.
  unfoldable pub serve : Response → Bytes → Thrown ⊎ Response
  unfolding read_bin mime_type
  serve response filename =
      let typed : Response = record response { content_type = mime_type filename } in
      elim (read_bin filename) [
        | none ↦ inl url_not_found
        | some body ↦ inr (record typed { body = body; prepared = true })
      ]

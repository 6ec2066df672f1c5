-- ===== src/Bserv/Database.antt =====
-- bserv/database.cpp and bserv/include/bserv/database.hpp: the connection pool, the queries and
-- the conversion of results.
pub mod Pool
pub mod Query
pub mod Results

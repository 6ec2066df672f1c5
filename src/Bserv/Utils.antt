-- ===== src/Bserv/Utils.antt =====
-- bserv/utils.cpp: URLs, parameter lists and passwords.
pub mod Url
pub mod Security
pub mod Params
pub mod Mime
pub mod Files

-- ===== src/Authz.antt =====
-- Authorization (internal/authz): permissions, the sets of them, and the roles that grant them.
pub mod Catalogue
pub mod Set
pub mod Builtin

-- ===== src/Queries.antt =====
-- tools/_osm_tools/tag_query.py: a tag query against an extract on the disk, cached under the digest of
-- its expression.
pub mod Words
pub mod Expression
pub mod Normal
pub mod Region
pub mod Cached

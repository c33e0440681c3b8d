-- ===== src/Dtable/Tests.antt =====
-- Concrete tables on which the theorems about dynamic tables are applied.
mod Plains
mod Prefixes
mod Ids

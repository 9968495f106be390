-- ===== src/Values.antt =====
-- The value objects of src/front-end/src/domain/value-objects: connections, and the filters that are made of
-- their definitions.
pub mod Options
pub mod Status
pub mod Filters

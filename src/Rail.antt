-- ===== src/Rail.antt =====
-- The RAIL back-end: the windowing policy of src/rail_route.rs, and the front end of src/rail.rs.
pub mod Route
pub mod Front
pub mod Tests

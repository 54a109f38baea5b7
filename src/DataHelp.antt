-- ===== src/DataHelp.antt =====
-- datahelp.py: rows of test data are written as text tables,
--   |colname1|colname2|
--   +--------+--------+
--   |value2  |value2  |
-- and read into dictionaries.
pub mod Table
pub mod Cells
pub mod Lines
pub mod Multiplier
pub mod Headers
pub mod RoundTrip
pub mod Rows
pub mod Flatten

-- ===== src/Index/Groonga.antt =====
-- native/index/groonga_index.h and groonga_index.cpp: the search index in a Groonga database. The
-- library that runs the commands is a parameter, and so is what reads JSON.
pub mod Query
pub mod Tokens
pub mod Client
pub mod Rows
pub mod Writes
pub mod Reads
pub mod Files
pub mod Grouped
pub mod Absent
pub mod Stored
pub mod RoundTrip
mod Samples
mod SampleTexts
mod RowTests
mod Tests
pub mod Schema

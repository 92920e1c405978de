-- ===== src/Tests.antt =====
-- Each theorem about the program at a concrete input that meets its hypotheses, over a SQLite that
-- accepts everything, and tests of the definitions.
mod Fixture
mod Caching
mod Connecting
mod Running
mod Pooling
mod Copying
mod Reading
mod Imaging
mod Attaching
mod Functions
mod Recording
mod Extending
mod Switching
mod Loading
mod Composing

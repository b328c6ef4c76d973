-- ===== src/Config.antt =====
-- The configuration of root servers: CSVReader (include/CSVReader.hpp) and the constructor of
-- RootServerManager that reads it (src/RootServerManager.cxx).
pub mod Csv
pub mod Pieces
pub mod Load
pub mod Loaded
pub mod Entries
mod Tests

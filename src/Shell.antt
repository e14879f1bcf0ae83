-- ===== src/Shell.antt =====
-- The command line program of src/js.cpp, as far as it is its own logic: the reading of a line, the
-- reading of the arguments, the options of the context, the watchdog that ends scripts, functions
-- called in threads, the report of errors, the count of the heap, interactive sessions, scripts in
-- files, the split global objects, traps, the environment, and small native functions.
pub mod GetLine
pub mod ReadLine
pub mod Scripts
pub mod Args
pub mod Watchdog
pub mod Options
pub mod Interactive
pub mod CountHeap
pub mod Report
pub mod Scatter
pub mod Split
pub mod Natives
pub mod Traps
pub mod Environment

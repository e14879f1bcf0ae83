-- ===== src/Tests.antt =====
-- Runs of the code of src/js_socket.cpp, src/js_sysutil.cpp, src/jsdso.cpp and src/js.cpp on small
-- inputs, at which the theorems of the other files are applied.
mod Samples
mod Sockets
mod Objects
mod Reading
mod Utilities
mod Program
mod Workers

-- ===== src/Socket/Connect/Ports.antt =====
-- The `char portnum[8]` and `char buf[8]` of src/js_socket.cpp, into which `sprintf` writes a port.
use sysjs.Prelude.{arith, neg_part, negsuc, pos, pos_part, true, ℤ, ◌<◌, ◌↔◌, ◌≡◌}
use sysjs.Socket.Connect.{decimal_width, digits10, port_fits}

-- The text of a number and its terminator fit exactly from -999999 to 9999999.
pub port_fits_iff :
    (port : ℤ) → (port_fits port ≡ true) ↔ ((pos_part port < 10000000) × (neg_part port < 1000000))
unfolding port_fits decimal_width digits10
port_fits_iff (pos n) = ground arith
port_fits_iff (negsuc n) = ground arith

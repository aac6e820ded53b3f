-- ===== src/Drivers/Serial/Tests.antt =====
-- A port that is always ready.
use larch.Prelude.{arith, codes, []}
use larch.Drivers.Bus.{Bus}
use larch.Drivers.Serial.{serial_write_string}
use larch.Drivers.Serial.Sent.{Drains, Sends, serial_write_string-Sends}

abbrev ready_port : Bus
ready_port = record { answers = λ port k. 0x60; count = 0; writes = [] }

ready_port-Drains : Drains 2 ready_port.answers
ready_port-Drains k = (0, omega arith, omega arith)

serial_write_string-Sends_example :
    Sends (codes "Hi") ready_port (serial_write_string 2 (codes "Hi") ready_port)
serial_write_string-Sends_example =
    serial_write_string-Sends 2 (codes "Hi") ready_port ready_port-Drains

-- ===== src/Tests/Connections.antt =====
-- Runs of src/tcpconnection.cc.
use mprpc_advanced_z.Base.{◌≡◌, refl, true, List, [], ◌∷◌, ◌++◌, Option, some, none, arith}
use mprpc_advanced_z.Base.Bytes.{Bytes}
use mprpc_advanced_z.Buffer
use mprpc_advanced_z.Buffer.{Buffer, contents}
use mprpc_advanced_z.TcpConnection.{
  TcpConnection, k_connected, k_disconnecting, Wire, MessageCallback, shutdown, handle_close,
  returns, handle_read, eof,
}
use mprpc_advanced_z.TcpConnection.Writing.{
  Event, sends, writable, run, messages, IsOpen, run-conserves, run-shutdown,
}
use mprpc_advanced_z.TcpConnection.Reading.{reads, joined, Holds, handle_read-Closes}

abbrev blank : Buffer
blank = record { m_buffer = 0 ∷ 0 ∷ 0 ∷ 0 ∷ []; m_reader_index = 0; m_writer_index = 0 }

blank-IsValid : Buffer.IsValid blank
blank-IsValid = record { ordered = omega arith; inside = omega arith; sized = omega arith }

-- A callback that sends back what it finds.
abbrev echo : MessageCallback
echo b = some (contents b ∷ [], record b { m_reader_index = 0; m_writer_index = 0 })

abbrev conn : TcpConnection
conn = record {
  m_fd = 5;
  m_state = k_connected;
  m_input_buffer = blank;
  m_output_buffer = blank;
  m_connection_callback = true;
  m_message_callback = some echo;
  notified = 0;
}

-- The socket takes one byte, or nothing.
abbrev one_byte : Wire
one_byte offered = some 1

abbrev full : Wire
full offered = none

abbrev events : List Event
events = sends one_byte (1 ∷ 2 ∷ []) ∷ writable full ∷ sends one_byte (3 ∷ []) ∷ []

run-conserves_example :
    ((run events conn).0 ++ contents (run events conn).1.m_output_buffer ≡ 1 ∷ 2 ∷ 3 ∷ [])
    × IsOpen (run events conn).1
unfolding contents messages
run-conserves_example =
    run-conserves events conn record { state = refl; output = blank-IsValid } (omega arith)

run-shutdown_example : run events (shutdown conn) ≡ ([], record conn { m_state = k_disconnecting })
run-shutdown_example = run-shutdown events conn refl

abbrev pieces : List (Option Bytes)
pieces = some (1 ∷ 2 ∷ []) ∷ none ∷ some (3 ∷ []) ∷ []

abbrev echoed : Buffer → List Bytes × Buffer
echoed b = (contents b ∷ [], record b { m_reader_index = 0; m_writer_index = 0 })

handle_read-Closes_example :
    (b : Buffer) × Holds b (1 ∷ 2 ∷ 3 ∷ [])
    × (handle_read one_byte (reads pieces eof []) conn
        ≡ returns [] (handle_close (record conn { m_input_buffer = b })))
unfolding contents joined
handle_read-Closes_example =
    handle_read-Closes one_byte pieces eof [] conn tt blank-IsValid (omega arith)

-- ===== src/TcpConnection/Answers.antt =====
-- src/tcpconnection.cc: what a connection that has been read sends back.
use mprpc_advanced_z.Base.{List, [], ◌∷◌, ◌++◌}
use mprpc_advanced_z.Base.Bytes.{Bytes}
use mprpc_advanced_z.Buffer
use mprpc_advanced_z.Buffer.{Buffer}
use mprpc_advanced_z.TcpConnection.{TcpConnection, Wire}
use mprpc_advanced_z.TcpConnection.Writing.{Event, sends}

-- The calls of Send as events, all with the same socket.
abbrev sendings : Wire → List Bytes → List Event
sendings wire [] = []
sendings wire (msg ∷ msgs) = sends wire msg ∷ sendings wire msgs

-- The pieces one behind the other.
abbrev pub concat : List Bytes → Bytes
concat [] = []
concat (msg ∷ msgs) = msg ++ concat msgs

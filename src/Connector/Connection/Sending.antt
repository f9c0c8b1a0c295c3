-- ===== src/Connector/Connection/Sending.antt =====
-- `Connection::send` and `Connection::ping` of lib/src/connector/connection.cc: what is handed to
-- websocketpp, given whether it reports an error.
use cpp_pcp_client.Base.{Bool, not, Result, ok, ◌>>◌, guard}
use cpp_pcp_client.Connector.Monitor.{MonitorError, processing_error}
use cpp_pcp_client.V1.Serialization.{Bytes}

pub data Frame : Type 0 where
  text_frame binary_frame ping_frame : Bytes → Frame

unfoldable pub send_text : Bool → Bytes → Result MonitorError Frame
send_text ec msg = do guard (not ec) processing_error; ok (text_frame msg)

unfoldable pub send_binary : Bool → Bytes → Result MonitorError Frame
send_binary ec serialized_msg = do guard (not ec) processing_error; ok (binary_frame serialized_msg)

unfoldable pub ping : Bool → Bytes → Result MonitorError Frame
ping ec binary_payload = do guard (not ec) processing_error; ok (ping_frame binary_payload)

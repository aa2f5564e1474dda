-- ===== src/Grpc.antt =====
-- The gRPC connections that feeder/eventstream/stream.go and feeder/priceposter/client.go open.
use pricefeeder.Base.{Bool, false, if◌then◌else◌, Text, Result, must}

-- `grpc.WithInsecure`, or TLS with its `InsecureSkipVerify`.
pub data Transport : Type 0 where
  with_insecure : Transport
  with_tls : Bool → Transport

unfoldable pub transport_dial_opt : Bool → Transport
transport_dial_opt enable_tls = if enable_tls then with_tls false else with_insecure

-- `grpc.Dial`, which is code of another package.
pub record Dialer : Type 1 where
  pub Conn : Type 0
  pub grpc_dial : Text → Transport → Result Conn

-- The two functions turn its error into a panic.
unfoldable pub dial_grpc : (deps : Dialer) → Text → Bool → Result deps.Conn
dial_grpc deps endpoint enable_tls = must (deps.grpc_dial endpoint (transport_dial_opt enable_tls))

-- ===== src/Relayd/Serve.antt =====
-- rust/choosh-relayd/src/ws.rs: what a connection's task does with the bytes of one message. The answer of the rate
-- limiter, which counts in floating point, is an argument; a write to the client that fails ends the connection
-- as any other end does.
use choosh.Prelude.{
  ℕ, ◌+◌, Bool, true, false, not, List, [], ◌∷◌, ◌++◌, Option, none, some, ltb, ◌==◌, if◌then◌else◌,
  length, Bytes, done, failed,
}
use choosh.Protocol.Framing.{FrameDecoder, ok, err, feed}
use choosh.Protocol.Relay.{
  ControlRequest, ControlResponse, error, request_id, frame_class_control, frame_class_tunnel,
  tunnel_id_bytes, max_tunnel_frame_bytes,
}
use choosh.Relayd.Access.{Authenticated}
use choosh.Relayd.Dispatch.{dispatch}
use choosh.Relayd.Listings.{Env}
use choosh.Relayd.Sockets.{Server, registry_touch}
use choosh.Relayd.Tunnels.{handle_tunnel_frame}
use choosh.Relayd.Wire.{Json, encode_control, decode_control}

-- The server, what was written to the client's socket, and whether the connection goes on.
pub record Served : Type 0 where
  pub server : Server
  pub written : List Bytes
  pub goes_on : Bool

abbrev pub stop : Server → Served
stop s = record { server = s; written = []; goes_on = false }

unfoldable pub with_touch : Env → Server → Authenticated → Server
unfolding registry_touch
with_touch env s who = record s { registry = registry_touch env.now s.registry who.device_id }

module _ (requests : Json ControlRequest) (responses : Json ControlResponse) (env : Env) where
  -- The answer to a request that came too fast.
  abbrev pub rate_limited : Server → ControlRequest → Served
  rate_limited s request = record {
    server = s;
    written =
        elim (encode_control responses
          (error (request_id request) "rate_limited" "control-frame rate limit exceeded")) [
            | failed _ ↦ []
            | done wire ↦ wire ∷ []
          ];
    goes_on = false;
  }

  abbrev pub answer : Server × ControlResponse → Served
  answer (s, response) = elim (encode_control responses response) [
    | failed _ ↦ stop s
    | done wire ↦ record { server = s; written = wire ∷ []; goes_on = true }
  ]

  unfoldable pub handle_control_frame : Bool → Server → Authenticated → Bytes → Served
  unfolding dispatch request_id
  handle_control_frame allowed s who frame = elim (decode_control requests frame) [
    | failed _ ↦ stop s
    | done request ↦
        if not allowed then rate_limited s request else answer (dispatch env s who request)
  ]

  unfoldable pub serve_class : Bool → Server → Authenticated → ℕ → Bytes → Served
  unfolding handle_control_frame
  serve_class allowed s who class frame =
      if class == frame_class_control
      then handle_control_frame allowed s who frame
      else if not (class == frame_class_tunnel)
      then stop s
      else if ltb (1 + tunnel_id_bytes + max_tunnel_frame_bytes) (length frame)
      then stop s
      else record {
        server = handle_tunnel_frame env.now s who.device_id frame;
        written = [];
        goes_on = true;
      }

  unfoldable pub serve_frame : Bool → Server → Authenticated → Bytes → Served
  unfolding serve_class with_touch
  serve_frame allowed s who [] = stop (with_touch env s who)
  serve_frame allowed s who (class ∷ body) =
      serve_class allowed (with_touch env s who) who class (class ∷ body)

  -- The frames of one message, up to the one that ends the connection.
  abbrev pub serve_frames : Bool → Server → Authenticated → List Bytes → Served
  serve_frames allowed s who [] = record { server = s; written = []; goes_on = true }
  serve_frames allowed s who (frame ∷ frames) =
      let first = serve_frame allowed s who frame in
      let rest = serve_frames allowed first.server who frames in
      if first.goes_on
      then record {
        server = rest.server;
        written = first.written ++ rest.written;
        goes_on = rest.goes_on;
      }
      else first

  unfoldable pub serve_message :
      Bool → Server → Authenticated → FrameDecoder → Bytes → Option (FrameDecoder × Served)
  unfolding serve_frame
  serve_message allowed s who decoder bytes = elim (feed decoder bytes) [
    | none ↦ none
    | some fed ↦ elim fed.1 [
      | err _ ↦ some (fed.0, stop s)
      | ok frames ↦ some (fed.0, serve_frames allowed s who frames)
    ]
  ]

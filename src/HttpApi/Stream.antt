-- ===== src/HttpApi/Stream.antt =====
-- internal/api/server.go, handleEvents: what it writes to the connection of a subscriber.
pub mod Frames
use paas_controlplane.Base.{String, List, [], ◌∷◌, Result, ok, err, ◌⧺◌}

-- What the select of the loop can find: the request is gone, a snapshot, or a channel that is closed.
pub data Signal : Type 0 where
  gone closed : Signal
  snapshot : String → Signal

-- fmt.Fprintf(w, "event: twin\ndata: %s\n\n", b)
unfoldable pub frame : String → String
frame b = "event: twin\ndata: " ⧺ b ⧺ "\n\n"

-- The loop, over what the select finds.
unfoldable pub follow : List Signal → String
unfolding frame
follow [] = ""
follow (gone ∷ signals) = ""
follow (closed ∷ signals) = ""
follow (snapshot payload ∷ signals) = frame payload ⧺ follow signals

-- The first message, of the overlay as json.Marshal gives it.
unfoldable pub prime : Result String String → String
unfolding frame
prime (ok b) = frame b
prime (err e) = ""

-- All that the handler writes.
unfoldable pub written : Result String String → List Signal → String
unfolding follow prime
written first signals = prime first ⧺ follow signals

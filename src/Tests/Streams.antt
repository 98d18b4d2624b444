-- ===== src/Tests/Streams.antt =====
-- An event stream, read back.
use paas_controlplane.Base.{[], ◌∷◌, map, is_free, ok, ◌≡◌, refl}
use paas_controlplane.HttpApi.Stream.{closed, snapshot, written}
use paas_controlplane.HttpApi.Stream.Frames.{events, twin, sent, received, events-written}

events-written_example :
    events (written (ok "[]") (snapshot "[1]" ∷ closed ∷ snapshot "[2]" ∷ []))
    ≡ map twin (sent (ok "[]") (snapshot "[1]" ∷ closed ∷ snapshot "[2]" ∷ []))
unfolding is_free received
events-written_example =
    events-written (ok "[]") (snapshot "[1]" ∷ closed ∷ snapshot "[2]" ∷ [])
      ((refl, refl), ((refl, refl), tt))

-- A test of the reader: two lines of data, each end of a line, another field and an event without data.
read :
    events "data: a\r\ndata:b\rid: 7\n\nevent: x\n\n"
    ≡ record { name = "message"; payload = "a\nb" } ∷ []
unfolding events
read = refl

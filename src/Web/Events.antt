-- ===== src/Web/Events.antt =====
-- internal/web/server.go: the stream of events.
use mailschleuse.Base.{ℕ, List, [], ◌∷◌, ◌++◌, Option, none, some, Bytes, codes}
use mailschleuse.Store.Types.{
  Event, EventType, message_new, message_updated, message_deleted, mailbox_cleared,
}
use mailschleuse.Store.State.{Store, subscribe}
use mailschleuse.Web.Types.{Response, stream}

-- What wakes the loop of `handleEvents`: the request is done, the server stops, the heartbeat, or an
-- event, and none for a channel that is closed.
pub data Signal : Type 0 where
  request_done shutdown heartbeat : Signal
  arrived : Option Event → Signal

unfoldable pub type_name : EventType → Bytes
type_name message_new = codes "message.new"
type_name message_updated = codes "message.updated"
type_name message_deleted = codes "message.deleted"
type_name mailbox_cleared = codes "mailbox.cleared"

abbrev event_text : Event → Option Bytes → Bytes
event_text ev none = []
event_text ev (some payload) =
    codes "event: " ++ (type_name ev.type ++ (codes "\ndata: " ++ (payload ++ codes "\n\n")))

-- The loop of `handleEvents`: what it writes for the signals. The parameter is `json.Marshal`.
unfoldable pub stream_events : (Event → Option Bytes) → List Signal → Bytes
unfolding type_name
stream_events marshal [] = []
stream_events marshal (request_done ∷ signals) = []
stream_events marshal (shutdown ∷ signals) = codes "event: shutdown\ndata: {}\n\n"
stream_events marshal (heartbeat ∷ signals) = codes ": ping\n\n" ++ stream_events marshal signals
stream_events marshal (arrived none ∷ signals) = []
stream_events marshal (arrived (some ev) ∷ signals) =
    event_text ev (marshal ev) ++ stream_events marshal signals

abbrev streaming : Store × ℕ → Store × Response
streaming (s, key) = (
  s,
  record {
    status = 200;
    headers =
        (codes "Content-Type", codes "text/event-stream")
        ∷ (codes "Cache-Control", codes "no-cache")
        ∷ (codes "Connection", codes "keep-alive")
        ∷ (codes "X-Accel-Buffering", codes "no")
        ∷ [];
    body = stream key;
  },
)

-- The start of `handleEvents`. Its end is `unsubscribe` of the key.
unfoldable pub handle_events : Store → Store × Response
unfolding subscribe
handle_events s = streaming (subscribe s)

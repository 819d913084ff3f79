-- ===== src/Hub.antt =====
-- web/hub.go, and the part of web/server.go that registers a client with the hub: the loop that
-- sends the messages of the services to the browsers. A client is a number, in the order of
-- registration. A channel is its buffer, whether it is closed, and what its reader has taken out of
-- it. `none` is a panic of the loop: a send on a closed channel, or a second close.
pub mod Clients
pub mod FanOut
pub mod Steps
pub mod Runs
use xray_knife.Prelude.{
  ℕ, zero, suc, ◌+◌, Bool, true, false, not, ◌||◌, ◌&&◌, List, [], ◌∷◌, ◌++◌, Option, none, some,
  if◌then◌else◌, ltb, leb, ◌==◌, length, keep,
}
use xray_knife.Text.{Text, is_empty, trim_space}

pub record Channel : Type 0 where
  pub queue : List Text
  pub closed : Bool
  pub taken : List Text

-- `clients` are the keys of the map, `channels` the field `send` of each client.
pub record Hub : Type 0 where
  pub clients : List ℕ
  pub channels : ℕ → Channel
  pub broadcast : List Text
  pub next : ℕ

abbrev pub broadcast_capacity : ℕ
broadcast_capacity = 1024

abbrev pub send_capacity : ℕ
send_capacity = 256

abbrev pub open_channel : Channel
open_channel = record { queue = []; closed = false; taken = [] }

unfoldable pub new_hub : Hub
new_hub = record { clients = []; channels = λ c. open_channel; broadcast = []; next = 0 }

unfoldable pub member : ℕ → List ℕ → Bool
member c [] = false
member c (d ∷ ds) = d == c || member c ds

unfoldable pub put : ℕ → Channel → (ℕ → Channel) → ℕ → Channel
put c ch channels d = if d == c then ch else channels d

-- A new connection makes a client with an open channel, and registers it.
unfoldable pub register : Hub → Hub
unfolding put
register h = record h {
  clients = h.next ∷ h.clients;
  channels = put h.next open_channel h.channels;
  next = suc h.next;
}

-- close
unfoldable pub close_channel : Channel → Option Channel
close_channel ch = if ch.closed then none else some (record ch { closed = true })

-- A client leaves the map and its channel is closed, unless it left before.
unfoldable pub unregister : ℕ → Hub → Option Hub
unfolding member put close_channel
unregister c h =
    if member c h.clients
    then elim (close_channel (h.channels c)) [
      | none ↦ none
      | some ch ↦ some (record h {
        clients = keep (λ d. not (d == c)) h.clients;
        channels = put c ch h.channels;
      })
    ]
    else some h

-- The loop over the clients that a message did not reach.
unfoldable pub evict : List ℕ → Hub → Option Hub
unfolding unregister
evict [] h = some h
evict (c ∷ cs) h = elim (unregister c h) [ none ↦ none | some h' ↦ evict cs h' ]

-- A send that does not wait: `none` within is a full buffer.
unfoldable pub offer : Text → Channel → Option (Option Channel)
offer message ch =
    if ch.closed
    then none
    else if ltb (length ch.queue) send_capacity
    then some (some (record ch { queue = ch.queue ++ message ∷ [] }))
    else some none

-- The loop over the clients: the channels after it, and the clients that the message did not reach.
unfoldable pub fan_out : Text → List ℕ → (ℕ → Channel) → Option ((ℕ → Channel) × List ℕ)
unfolding offer put
fan_out message [] channels = some (channels, [])
fan_out message (c ∷ cs) channels = elim (offer message (channels c)) [
  | none ↦ none
  | some none ↦ elim (fan_out message cs channels) [
    | none ↦ none
    | some sent ↦ some (sent.0, c ∷ sent.1)
  ]
  | some (some ch) ↦ fan_out message cs (put c ch channels)
]

-- The loop takes the first message that waits and sends it to every client.
unfoldable pub dispatch_first : List Text → Hub → Option Hub
unfolding fan_out evict
dispatch_first [] h = some h
dispatch_first (message ∷ rest) h = elim (fan_out message h.clients h.channels) [
  | none ↦ none
  | some sent ↦ evict sent.1 (record h { channels = sent.0; broadcast = rest })
]

unfoldable pub dispatch : Hub → Option Hub
unfolding dispatch_first
dispatch h = dispatch_first h.broadcast h

-- `Broadcast`: a message is dropped when the buffer is full.
unfoldable pub post : Text → Hub → Hub
post message h =
    if ltb (length h.broadcast) broadcast_capacity
    then record h { broadcast = h.broadcast ++ message ∷ [] }
    else h

-- `Write`: log output. `marshal` wraps a line in JSON, if it can.
unfoldable pub write : (Text → Option Text) → Text → Hub → Hub
unfolding post
write marshal p h =
    if is_empty (trim_space p)
    then h
    else elim (marshal (trim_space p)) [ none ↦ h | some message ↦ post message h ]

-- The handler of a connection takes a message out of its channel.
unfoldable pub receive_first : List Text → ℕ → Hub → Hub
unfolding put
receive_first [] c h = h
receive_first (message ∷ rest) c h = record h {
  channels =
      put c (record (h.channels c) { queue = rest; taken = (h.channels c).taken ++ message ∷ [] })
        h.channels;
}

unfoldable pub receive : ℕ → Hub → Hub
unfolding receive_first
receive c h = receive_first (h.channels c).queue c h

-- What the loop and those around it do, one after the other.
pub data HubEvent : Type 0 where
  connect deliver : HubEvent
  leave read : ℕ → HubEvent
  emit log : Text → HubEvent

unfoldable pub hub_step : (Text → Option Text) → HubEvent → Hub → Option Hub
unfolding register unregister dispatch post write receive
hub_step marshal connect h = some (register h)
hub_step marshal deliver h = dispatch h
hub_step marshal (leave c) h = unregister c h
hub_step marshal (read c) h = some (receive c h)
hub_step marshal (emit message) h = some (post message h)
hub_step marshal (log p) h = some (write marshal p h)

unfoldable pub run_hub : (Text → Option Text) → List HubEvent → Hub → Option Hub
unfolding hub_step
run_hub marshal [] h = some h
run_hub marshal (e ∷ es) h = elim (hub_step marshal e h) [
  | none ↦ none
  | some h' ↦ run_hub marshal es h'
]

-- ===== src/Tests/Clients.antt =====
-- Tests of the hub.
use xray_knife.Prelude.{
  ℕ, ◌≡◌, ◌<◌, refl, true, false, not, List, [], ◌∷◌, ◌++◌, Option, none, some,
}
use xray_knife.Text.{Text, bytes, is_empty, trim_space, strip, space_width, last_space_width}
use xray_knife.Hub.{
  Channel, Hub, HubEvent, new_hub, member, put, register, close_channel, unregister, evict, offer,
  fan_out, dispatch_first, dispatch, post, write, receive_first, receive, hub_step, run_hub,
  connect, deliver, leave, read, emit, log,
}
use xray_knife.Hub.Steps.{history, delivered}
use xray_knife.Hub.Runs.{delivered_in, run_hub_safe, run_hub_delivers}

hub_code : Unit {0}
unfolding is_empty trim_space strip space_width last_space_width new_hub member put register
    close_channel unregister evict offer fan_out dispatch_first dispatch post write receive_first
    receive hub_step run_hub delivered
hub_code = tt

abbrev marshal : Text → Option Text
marshal line = some (bytes "{" ++ line ++ bytes "}")

abbrev opening : List HubEvent
opening = connect ∷ emit (bytes "a") ∷ deliver ∷ connect ∷ []

abbrev closing : List HubEvent
closing = log (bytes " b\n") ∷ read 0 ∷ deliver ∷ leave 0 ∷ leave 0 ∷ []

abbrev view : Option Hub → Option (List ℕ × Channel × Channel)
view none = none
view (some h) = some (h.clients, h.channels 0, h.channels 1)

hub_tests :
    view (run_hub marshal (opening ++ closing) new_hub)
    ≡ some (
      1 ∷ [],
      record { queue = bytes "{b}" ∷ []; closed = true; taken = bytes "a" ∷ [] },
      record { queue = bytes "{b}" ∷ []; closed = false; taken = [] },
    )
unfolding hub_code
hub_tests = refl

run_hub_safe_example :
    (h : Hub) × (run_hub marshal (opening ++ closing) new_hub ≡ some h)
    × ((c : ℕ) → c < h.next → (h.channels c).closed ≡ not (member c h.clients))
run_hub_safe_example = run_hub_safe marshal (opening ++ closing)

run_hub_delivers_example :
    (h : Hub) × (g : Hub) × (run_hub marshal opening new_hub ≡ some h)
    × (run_hub marshal closing h ≡ some g)
    × ((c : ℕ)
        → c < h.next
        → member c g.clients ≡ true
        → (member c h.clients ≡ true)
          × (history g c ≡ history h c ++ delivered_in marshal closing h))
run_hub_delivers_example = run_hub_delivers marshal opening closing

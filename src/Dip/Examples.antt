-- ===== src/Dip/Examples.antt =====
-- Envelopes of dip at concrete values.
use sovereign_stack.Base.{
  ℕ, ◌≡◌, ◌↔◌, refl, true, false, some, none, [], ◌∷◌, text, Text_discrete, ok, err, contains,
}
use sovereign_stack.Dip.Router.{
  DipNetwork, DipNetwork_discrete, DipEnvelope, DipRouter, deliver_local, forward, drop_duplicate,
  no_adapter, is_expired, route, register_adapter, choose,
}
use sovereign_stack.Dip.Decisions.{IsFresh, IsForUs, here, next, registered, route_iff, routed_once}
use sovereign_stack.Dip.Cascade.{
  DipAdapter, OsoRouter, OsoRouteTrace, register, find_adapter, send, send_required, Cascades,
  send_delivers,
}

abbrev router : DipRouter
router = record { registered_adapters = []; seen = []; local_did = text "did:us" }

abbrev envelope : DipEnvelope
envelope = record {
  message_id = text "dip:1";
  timestamp = 1000;
  ttl = 300;
  origin = record { network = DipNetwork.vantage; address = text "did:them"; did = none };
  destination = record {
    network = DipNetwork.nostr;
    address = text "npub1";
    did = some (text "did:else");
  };
  routing = [];
}

fresh : IsFresh 2000 router envelope
unfolding contains is_expired
fresh = record { unseen = refl; live = refl }

refused : (route 2000 router envelope).1 ≡ err (no_adapter DipNetwork.nostr)
unfolding route contains is_expired choose Text_discrete
refused = refl

route_iff_example :
    (((route 2000 router envelope).1 ≡ ok deliver_local)
      ↔ (IsFresh 2000 router envelope × IsForUs router envelope))
    × ((n : DipNetwork)
        → ((route 2000 router envelope).1 ≡ ok (forward n)) ↔ (
            IsFresh 2000 router envelope
            × (¬ IsForUs router envelope)
            × (contains DipNetwork_discrete envelope.destination.network router.registered_adapters
                ≡ true)
            × (envelope.destination.network ≡ n)))
    × ((n : DipNetwork)
        → ((route 2000 router envelope).1 ≡ err (no_adapter n)) ↔ (
            IsFresh 2000 router envelope
            × (¬ IsForUs router envelope)
            × (contains DipNetwork_discrete envelope.destination.network router.registered_adapters
                ≡ false)
            × (envelope.destination.network ≡ n)))
route_iff_example = route_iff 2000 router envelope

abbrev after : DipRouter
after = register_adapter (route 2000 router envelope).0 DipNetwork.nostr

routed_once_example : route 3000 after envelope ≡ (after, ok (drop_duplicate (text "dip:1")))
routed_once_example =
    routed_once 2000 router envelope fresh (next here (registered DipNetwork.nostr)) 3000 envelope
      refl

abbrev unreachable : DipAdapter
unreachable e = err (text "unreachable")

abbrev working : DipAdapter
working e = ok tt

abbrev transports : OsoRouter
transports =
    register (register (register [] DipNetwork.nostr working) DipNetwork.freenet working)
      DipNetwork.nostr unreachable

abbrev took : DipNetwork → ℕ
took n = 7

by_freenet : OsoRouteTrace.delivered_via (send transports took envelope) ≡ some DipNetwork.freenet
unfolding send register find_adapter DipNetwork_discrete
by_freenet = refl

send_delivers_example :
    Cascades transports took envelope
      (DipNetwork.vantage ∷ DipNetwork.nostr ∷ DipNetwork.freenet ∷ DipNetwork.meshtastic ∷ [])
      (OsoRouteTrace.legs (send transports took envelope))
      (OsoRouteTrace.delivered_via (send transports took envelope))
    × (OsoRouteTrace.message_id (send transports took envelope) ≡ envelope.message_id)
    × ((n : DipNetwork)
        → OsoRouteTrace.delivered_via (send transports took envelope) ≡ some n
        → send_required transports took envelope ≡ ok (send transports took envelope))
    × (OsoRouteTrace.delivered_via (send transports took envelope) ≡ none
        → send_required transports took envelope ≡ err (no_adapter DipNetwork.vantage))
send_delivers_example = send_delivers transports took envelope

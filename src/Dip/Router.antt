-- ===== src/Dip/Router.antt =====
-- dip/src/address.rs, envelope.rs and router.rs: the envelope as far as it is routed, and the router.
-- The clock is an argument.
use sovereign_stack.Base.{
  ℕ, ◌+◌, ◌*◌, ◌%◌, ◌^◌, Bool, ◌||◌, Option, none, some, List, [], ◌∷◌, ◌++◌, Text, Text_discrete,
  eqb, contains, add, ltb, if◌then◌else◌, Result, ok, err,
}

pub data DipNetwork : Type 0 where
  vantage nostr a2a mcp meshtastic freenet libp2p : DipNetwork

unfoldable pub DipNetwork_discrete : Discrete DipNetwork
DipNetwork_discrete = hlevel

pub record DipAddress : Type 0 where
  pub network : DipNetwork
  pub address : Text
  pub did : Option Text

unfoldable pub vantage_address : Text → DipAddress
vantage_address did = record { network = vantage; address = did; did = some did }

unfoldable pub nostr_address : Text → DipAddress
nostr_address npub = record { network = nostr; address = npub; did = none }

unfoldable pub meshtastic_address : Text → DipAddress
meshtastic_address node_id = record { network = meshtastic; address = node_id; did = none }

pub record DipHop : Type 0 where
  pub node : DipAddress
  pub adapter : DipNetwork
  pub timestamp : ℕ
  pub latency_ms : Option ℕ

-- The fields that routing reads or changes; identity, kind, payload and signature are left out.
pub record DipEnvelope : Type 0 where
  pub message_id : Text
  pub timestamp : ℕ
  pub ttl : ℕ
  pub origin : DipAddress
  pub destination : DipAddress
  pub routing : List DipHop

unfoldable pub add_hop : DipEnvelope → DipHop → DipEnvelope
add_hop e hop = record e { routing = e.routing ++ (hop ∷ []) }

-- The sum of the `u64` timestamp and the time to live wraps.
unfoldable pub is_expired : ℕ → DipEnvelope → Bool
is_expired now e = ltb ((e.timestamp + e.ttl * 1000) % 2 ^ 64) now

pub data RouteDecision : Type 0 where
  deliver_local : RouteDecision
  forward : DipNetwork → RouteDecision
  drop_duplicate : Text → RouteDecision
  drop_expired : RouteDecision

pub data DipError : Type 0 where
  no_adapter : DipNetwork → DipError

pub record DipRouter : Type 0 where
  pub registered_adapters : List DipNetwork
  pub seen : List Text
  pub local_did : Text

unfoldable pub new_router : Text → DipRouter
new_router local_did = record { registered_adapters = []; seen = []; local_did = local_did }

unfoldable pub register_adapter : DipRouter → DipNetwork → DipRouter
register_adapter r network = record r {
  registered_adapters = add DipNetwork_discrete network r.registered_adapters;
}

-- `envelope.destination.did.as_deref().unwrap_or("")`
abbrev pub did_text : Option Text → Text
did_text none = []
did_text (some did) = did

-- Where an envelope goes that is neither seen nor expired.
unfoldable pub choose : DipRouter → DipEnvelope → Result DipError RouteDecision
choose r e =
    if eqb Text_discrete (did_text e.destination.did) r.local_did
      || eqb Text_discrete e.destination.address r.local_did
    then ok deliver_local
    else if contains DipNetwork_discrete e.destination.network r.registered_adapters
    then ok (forward e.destination.network)
    else err (no_adapter e.destination.network)

unfoldable pub route : ℕ → DipRouter → DipEnvelope → DipRouter × Result DipError RouteDecision
route now r e =
    if contains Text_discrete e.message_id r.seen
    then (r, ok (drop_duplicate e.message_id))
    else if is_expired now e
    then (r, ok drop_expired)
    else (record r { seen = add Text_discrete e.message_id r.seen }, choose r e)

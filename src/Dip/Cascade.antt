-- ===== src/Dip/Cascade.antt =====
-- dip/src/oso_router.rs: the cascade of transports for life-cycle signals. What an adapter does with
-- an envelope and the time it takes are parameters.
use sovereign_stack.Base.{
  ℕ, ◌%◌, ◌^◌, ◌≡◌, ◌≢◌, ◌⊎◌, refl, subst, ap, inl, inr, Bool, true, false, not, Bool-cases, Option,
  Option-cases, eqb_iff, none, some, List, [], ◌∷◌, ◌++◌, All, find?, filter, Text, eqb,
  if◌then◌else◌, Result, ok, err,
}
use sovereign_stack.Dip.Router.{
  DipNetwork, DipNetwork_discrete, DipEnvelope, DipError, no_adapter, vantage, nostr, freenet,
  meshtastic,
}

abbrev pub oso_cascade : List DipNetwork
oso_cascade = vantage ∷ nostr ∷ freenet ∷ meshtastic ∷ []

pub data LegOutcome : Type 0 where
  success adapter_missing : LegOutcome
  failed : Text → LegOutcome

pub record CascadeLeg : Type 0 where
  pub network : DipNetwork
  pub outcome : LegOutcome
  pub latency_ms : ℕ

pub record OsoRouteTrace : Type 0 where
  pub message_id : Text
  pub legs : List CascadeLeg
  pub delivered_via : Option DipNetwork

abbrev pub succeeded : OsoRouteTrace → Bool
succeeded t = elim t.delivered_via [ none ↦ false | some _ ↦ true ]

-- `send` of a `DipAdapter`, with the text of its error
abbrev pub DipAdapter : Type 0
DipAdapter = DipEnvelope → Result Text (Unit {0})

pub record Slot : Type 0 where
  pub network : DipNetwork
  pub adapter : DipAdapter

abbrev pub OsoRouter : Type 0
OsoRouter = List Slot

unfoldable pub register : OsoRouter → DipNetwork → DipAdapter → OsoRouter
register slots network adapter =
    filter (λ s. not (eqb DipNetwork_discrete s.network network)) slots
    ++ (record { network = network; adapter = adapter } ∷ [])

unfoldable pub find_adapter : OsoRouter → DipNetwork → Option DipAdapter
find_adapter slots network = elim (find? (λ s. eqb DipNetwork_discrete s.network network) slots) [
  | none ↦ none
  | some s ↦ some s.adapter
]

module _ (slots : OsoRouter) (latency : DipNetwork → ℕ) (envelope : DipEnvelope) where
  abbrev leg : DipNetwork → LegOutcome → ℕ → CascadeLeg
  leg network outcome ms = record { network = network; outcome = outcome; latency_ms = ms }

  -- One attempt, whose time in milliseconds is cut to 32 bits.
  unfoldable pub attempt : DipNetwork → CascadeLeg
  unfolding find_adapter
  attempt network = elim (find_adapter slots network) [
    | none ↦ leg network adapter_missing 0
    | some adapter ↦ elim (adapter envelope) [
      | ok _ ↦ leg network success (latency network % 2 ^ 32)
      | err e ↦ leg network (failed e) (latency network % 2 ^ 32)
    ]
  ]

  abbrev is_success : LegOutcome → Bool
  is_success success = true
  is_success _ = false

  -- the loop over the networks: the legs that are tried, and the network that delivers
  unfoldable pub walk : List DipNetwork → List CascadeLeg × Option DipNetwork
  unfolding attempt
  walk [] = ([], none)
  walk (network ∷ networks) =
      let this = attempt network in
      let rest = walk networks in
      if is_success this.outcome then (this ∷ [], some network) else (this ∷ rest.0, rest.1)

  unfoldable pub send : OsoRouteTrace
  unfolding walk
  send =
      let walked = walk oso_cascade in
      record { message_id = envelope.message_id; legs = walked.0; delivered_via = walked.1 }

  unfoldable pub send_required : Result DipError OsoRouteTrace
  unfolding send
  send_required = if succeeded send then ok send else err (no_adapter vantage)

  -- The adapter that is registered for a network.
  pub data Holds (n : DipNetwork) : OsoRouter → DipAdapter → Type 0 where
    here : {s : Slot} {rest : OsoRouter} → s.network ≡ n → Holds n (s ∷ rest) s.adapter
    there :
        {s : Slot} {rest : OsoRouter} {adapter : DipAdapter}
        → s.network ≢ n
        → Holds n rest adapter
        → Holds n (s ∷ rest) adapter

  -- No adapter is registered for the network, and its leg says so.
  pub record IsMissing (n : DipNetwork) (l : CascadeLeg) : Type 0 where
    pub absent : All (λ s. s.network ≢ n) slots
    pub said : l ≡ record { network = n; outcome = adapter_missing; latency_ms = 0 }

  -- The adapter of the network refuses the envelope, and its leg gives the reason.
  pub record IsRefused (n : DipNetwork) (l : CascadeLeg) : Type 0 where
    pub adapter : DipAdapter
    pub registered : Holds n slots adapter
    pub reason : Text
    pub refuses : adapter envelope ≡ err reason
    pub said : l ≡ record { network = n; outcome = failed reason; latency_ms = latency n % 2 ^ 32 }

  -- The adapter of the network takes the envelope, and its leg says so.
  pub record IsTaken (n : DipNetwork) (l : CascadeLeg) : Type 0 where
    pub adapter : DipAdapter
    pub registered : Holds n slots adapter
    pub takes : adapter envelope ≡ ok tt
    pub said : l ≡ record { network = n; outcome = success; latency_ms = latency n % 2 ^ 32 }

  -- The networks that are tried in turn until one takes the envelope, their legs, and the one.
  pub data Cascades : List DipNetwork → List CascadeLeg → Option DipNetwork → Type 0 where
    exhausted : Cascades [] [] none
    taken :
        {n : DipNetwork} {ns : List DipNetwork} {l : CascadeLeg}
        → IsTaken n l
        → Cascades (n ∷ ns) (l ∷ []) (some n)
    passed_over :
        {n : DipNetwork} {ns : List DipNetwork} {l : CascadeLeg} {ls : List CascadeLeg}
        {via : Option DipNetwork}
        → IsMissing n l ⊎ IsRefused n l
        → Cascades ns ls via
        → Cascades (n ∷ ns) (l ∷ ls) via

  -- What the look-up finds in a part of the slots.
  Found : DipNetwork → OsoRouter → Option Slot → Type 0
  Found n part none = All (λ s. s.network ≢ n) part
  Found n part (some s) = Holds n part s.adapter

  Found-next :
      (n : DipNetwork) (s : Slot) (rest : OsoRouter) (o : Option Slot)
      → s.network ≢ n
      → Found n rest o
      → Found n (s ∷ rest) o
  unfolding Found
  Found-next n s rest none other h = (other, h)
  Found-next n s rest (some t) other h = there other h

  finds :
      (n : DipNetwork) (part : OsoRouter)
      → Found n part (find? (λ s. eqb DipNetwork_discrete s.network n) part)
  unfolding Found
  finds n [] = tt
  finds n (s ∷ rest) = elim (Bool-cases (eqb DipNetwork_discrete s.network n)) [
    | inl e ↦ rw e (here ((eqb_iff DipNetwork_discrete s.network n).0 e))
    | inr e ↦ rw e (
        Found-next n s rest _ (λ same. cc (e, (eqb_iff DipNetwork_discrete s.network n).1 same))
          (finds n rest))
  ]

  Attempted : DipNetwork → CascadeLeg → Type 0
  Attempted n l =
      ((is_success l.outcome ≡ true) × IsTaken n l)
      ⊎ ((is_success l.outcome ≡ false) × (IsMissing n l ⊎ IsRefused n l))

  abbrev answer : DipNetwork → Result Text (Unit {0}) → CascadeLeg
  answer n (ok _) = leg n success (latency n % 2 ^ 32)
  answer n (err e) = leg n (failed e) (latency n % 2 ^ 32)

  answer_elim :
      (n : DipNetwork) (r : Result Text (Unit {0}))
      → (elim r [
        | ok _ ↦ leg n success (latency n % 2 ^ 32)
        | err e ↦ leg n (failed e) (latency n % 2 ^ 32)
      ])
        ≡ answer n r
  answer_elim n (ok _) = refl
  answer_elim n (err e) = refl

  attempt-some :
      (n : DipNetwork) (s : Slot)
      → find? (λ s. eqb DipNetwork_discrete s.network n) slots ≡ some s
      → attempt n ≡ answer n (s.adapter envelope)
  unfolding attempt find_adapter
  attempt-some n s e = rw (attempt, find_adapter, e) (answer_elim n (s.adapter envelope))

  answered :
      (n : DipNetwork) (a : DipAdapter) (r : Result Text (Unit {0})) (l : CascadeLeg)
      → Holds n slots a
      → a envelope ≡ r
      → l ≡ answer n r
      → Attempted n l
  unfolding Attempted
  answered n a (ok u) l h e q = inl (
    ap (λ x. is_success x.outcome) q,
    record { adapter = a; registered = h; takes = e; said = q },
  )
  answered n a (err reason) l h e q = inr (
    ap (λ x. is_success x.outcome) q,
    inr (record { adapter = a; registered = h; reason = reason; refuses = e; said = q }),
  )

  attempt_cases : (n : DipNetwork) → Attempted n (attempt n)
  unfolding attempt find_adapter Attempted Found
  attempt_cases n =
      let found = finds n slots in
      elim (Option-cases (find? (λ s. eqb DipNetwork_discrete s.network n) slots)) [
        | inl e ↦ inr (
          rw (attempt, find_adapter, e) refl,
          inl (record {
            absent = subst (Found n slots) e found;
            said = rw (attempt, find_adapter, e) refl;
          }),
        )
        | inr (s, e) ↦
            answered n s.adapter (s.adapter envelope) (attempt n) (subst (Found n slots) e found)
              refl (attempt-some n s e)
      ]

  walk-Cascades :
      (networks : List DipNetwork) → Cascades networks (walk networks).0 (walk networks).1
  unfolding walk Attempted
  walk-Cascades [] = exhausted
  walk-Cascades (n ∷ ns) = elim (attempt_cases n) [
    | inl (e, h) ↦ rw (walk, e) (taken h)
    | inr (e, h) ↦ rw (walk, e) (passed_over h (walk-Cascades ns))
  ]

  -- A signal is tried on Vantage, Nostr, Freenet and Meshtastic in this order, until the adapter
  -- that is registered for one of them takes it; the trace has one leg for each network that was
  -- tried and no other: that no adapter is registered, the reason for which it refused, or its
  -- success, the last two with the time of the attempt modulo 2 ^ 32; and it has the id of the
  -- message and names the network that took the signal, if one did. `send_required` gives this
  -- trace if one did, and the lack of an adapter for Vantage otherwise.
  pub send_delivers :
      Cascades (vantage ∷ nostr ∷ freenet ∷ meshtastic ∷ []) send.legs send.delivered_via
      × (send.message_id ≡ envelope.message_id)
      × ((n : DipNetwork) → send.delivered_via ≡ some n → send_required ≡ ok send)
      × (send.delivered_via ≡ none → send_required ≡ err (no_adapter vantage))
  unfolding send send_required
  send_delivers = (walk-Cascades oso_cascade, refl, λ n e. rw e refl, λ e. rw e refl)

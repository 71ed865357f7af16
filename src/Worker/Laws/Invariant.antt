-- ===== src/Worker/Laws/Invariant.antt =====
-- src/flow_plane/worker.rs: the well-formedness of a worker's state, and how a method ends.
use new_proxy.Prelude.{
  ℕ, Bool, true, false, ◌≡◌, refl, ◌∙◌, arith, nat_eq, Option, none, some, List, Result, ok, err,
  if◌then◌else◌,
}
use new_proxy.HashMap
use new_proxy.HashMap.{HashMap, IsMap}
use new_proxy.Net
use new_proxy.Net.{SessionId, FlowKey, flow_eq}
use new_proxy.Session
use new_proxy.Session.Table.{SessionTable}
use new_proxy.Session.Spares.{Spares}
use new_proxy.Packet.Header.{PacketError}
use new_proxy.Worker.State.{
  FlowWorkerState, FlowWorkerStats, FlowWorkerError, packet_error, session_error, dns_error,
  wrong_quic_flow_owner, panicked, DnsFlowTransaction, DnsFlowTransactionKey, flow_key_eq, Action,
  of_packet, ◌>>=◌, pure, fail, written, gets, count, modify, expect,
}

-- The session table of the worker is well formed, the two indexes of the DNS transactions tell of
-- the same ones, and each has its NAT binding, under a token that is no session's.
pub record Holds (worker : ℕ) (t : SessionTable)
    (by_key : HashMap DnsFlowTransactionKey DnsFlowTransaction)
    (by_reverse : HashMap FlowKey DnsFlowTransactionKey) : Type 0 where
  pub sessions_valid : Session.Invariant.IsValid t
  pub owner : t.owner_worker_id ≡ worker
  pub keys_map : IsMap by_key
  pub reverse_map : IsMap by_reverse
  pub indexed :
      (k : DnsFlowTransactionKey) (d : DnsFlowTransaction)
      → HashMap.get k by_key ≡ some d
      → HashMap.get (Net.reverse d.binding.translated) by_reverse ≡ some k
  pub backed :
      (f : FlowKey) (k : DnsFlowTransactionKey)
      → HashMap.get f by_reverse ≡ some k
      → (d : DnsFlowTransaction) × (HashMap.get k by_key ≡ some d)
        × (Net.reverse d.binding.translated ≡ f)
  pub leased :
      (k : DnsFlowTransactionKey) (d : DnsFlowTransaction)
      → HashMap.get k by_key ≡ some d
      → HashMap.get d.token t.nat.forward ≡ some d.binding
  pub no_session :
      (k : DnsFlowTransactionKey) (d : DnsFlowTransaction)
      → HashMap.get k by_key ≡ some d
      → HashMap.get d.token t.sessions ≡ none

abbrev pub IsValid : FlowWorkerState → Type 0
IsValid w = Holds w.worker_id w.sessions w.dns_by_key w.dns_by_reverse

-- A method on sessions keeps the transactions.
pub Spares-Holds :
    {worker : ℕ} {t t' : SessionTable} {by_key : HashMap DnsFlowTransactionKey DnsFlowTransaction}
    {by_reverse : HashMap FlowKey DnsFlowTransactionKey}
    → Holds worker t by_key by_reverse
    → Session.Invariant.IsValid t'
    → Spares t t'
    → Holds worker t' by_key by_reverse
Spares-Holds v valid s = record {
  sessions_valid = valid;
  owner = s.owner ∙ v.owner;
  keys_map = v.keys_map;
  reverse_map = v.reverse_map;
  indexed = v.indexed;
  backed = v.backed;
  leased = λ k d h. (s.bindings d.token d.binding (v.leased k d h) (v.no_session k d h)).0;
  no_session = λ k d h. (s.bindings d.token d.binding (v.leased k d h) (v.no_session k d h)).1;
}

unfoldable pub is_panic : FlowWorkerError → Bool
is_panic panicked = true
is_panic (packet_error e) = false
is_panic (session_error e) = false
is_panic (dns_error e) = false
is_panic (wrong_quic_flow_owner a b) = false

-- How a method ends: with a result of which `Q` tells, or with an error that is no panic, in a
-- state that is well formed.
abbrev pub Ends :
    {A : Type 0}
    → (A → FlowWorkerState → Type 0)
    → FlowWorkerState × Result FlowWorkerError A
    → Type 0
Ends Q (w, ok a) = Q a w
Ends Q (w, err e) = IsValid w × (is_panic e ≡ false)

-- From a state of which `P` tells, the method ends so.
pub record Triple {A : Type 0} (P : FlowWorkerState → Type 0) (m : Action A)
    (Q : A → FlowWorkerState → Type 0) : Type 0 where
  pub run : (w : FlowWorkerState) → P w → Ends Q (m w)

module _ {A B : Type 0} {Q : A → FlowWorkerState → Type 0} {R : B → FlowWorkerState → Type 0} where
  ends_pair :
      (f : A → Action B) (r : FlowWorkerState × Result FlowWorkerError A)
      → Ends Q r
      → ((a : A) → Triple (Q a) (f a) R)
      → Ends R (elim r.1 [ ok a ↦ f a r.0 | err e ↦ (r.0, err e) ])
  ends_pair f (w, ok a) h k = (k a).run w h
  ends_pair f (w, err e) h k = h

  pub chain :
      {P : FlowWorkerState → Type 0} {m : Action A} {f : A → Action B}
      → Triple P m Q
      → ((a : A) → Triple (Q a) (f a) R)
      → Triple P (m >>= f) R
  unfolding ◌>>=◌
  chain {P} {m} {f} h k = record { run = λ w p. ends_pair f (m w) (h.run w p) k }

module _ {A : Type 0} {P : FlowWorkerState → Type 0} {Q : A → FlowWorkerState → Type 0} where
  pub weaken :
      {P' : FlowWorkerState → Type 0} {m : Action A}
      → ((w : FlowWorkerState) → P' w → P w)
      → Triple P m Q
      → Triple P' m Q
  weaken h t = record { run = λ w p. t.run w (h w p) }

  pub pure-Triple : (a : A) → ((w : FlowWorkerState) → P w → Q a w) → Triple P (pure a) Q
  unfolding pure
  pure-Triple a h = record { run = h }

  pub fail-Triple :
      (e : FlowWorkerError)
      → is_panic e ≡ false
      → ((w : FlowWorkerState) → P w → IsValid w)
      → Triple P (fail e) Q
  unfolding fail
  fail-Triple e ne h = record { run = λ w p. (h w p, ne) }

  pub if-Triple :
      {x y : Action A} (b : Bool)
      → (b ≡ true → Triple P x Q)
      → (b ≡ false → Triple P y Q)
      → Triple P (if b then x else y) Q
  if-Triple true h k = h refl
  if-Triple false h k = k refl

  pub option-Triple :
      {X : Type 0} {x : Action A} {f : X → Action A} (o : Option X)
      → (o ≡ none → Triple P x Q)
      → ((a : X) → o ≡ some a → Triple P (f a) Q)
      → Triple P (elim o [ none ↦ x | some a ↦ f a ]) Q
  option-Triple none h k = h refl
  option-Triple (some a) h k = k a refl

  pub result-Triple :
      {X E : Type 0} {x : Action A} {f : X → Action A} (r : Result E X)
      → ((e : E) → r ≡ err e → Triple P x Q)
      → ((a : X) → r ≡ ok a → Triple P (f a) Q)
      → Triple P (elim r [ err _ ↦ x | ok a ↦ f a ]) Q
  result-Triple (err e) h k = h e refl
  result-Triple (ok a) h k = k a refl

abbrev pub Valid : {A : Type 0} → A → FlowWorkerState → Type 0
Valid a w = IsValid w

module _ {A : Type 0} {P : FlowWorkerState → Type 0} where
  pub of_packet-keeps :
      (r : Result PacketError A)
      → ((w : FlowWorkerState) → P w → IsValid w)
      → Triple P (of_packet r) (λ a. P)
  unfolding of_packet is_panic
  of_packet-keeps (ok a) valid = record { run = λ w p. p }
  of_packet-keeps (err e) valid = record { run = λ w p. (valid w p, refl) }

  pub gets-Triple : (f : FlowWorkerState → A) → Triple P (gets f) (λ a w. P w × (a ≡ f w))
  unfolding gets
  gets-Triple f = record { run = λ w p. (p, refl) }

pub count-keeps :
    {P : FlowWorkerState → Type 0} (f : FlowWorkerStats → FlowWorkerStats)
    → ((w : FlowWorkerState) (s : FlowWorkerStats) → P w → P (record w { stats = s }))
    → Triple P (count f) (λ a. P)
unfolding count
count-keeps f stable = record { run = λ w p. stable w (f w.stats) p }

pub modify-Triple :
    {P Q : FlowWorkerState → Type 0} (f : FlowWorkerState → FlowWorkerState)
    → ((w : FlowWorkerState) → P w → Q (f w))
    → Triple P (modify f) (λ a. Q)
unfolding modify
modify-Triple f h = record { run = h }

pub of_packet-Triple : {A : Type 0} (r : Result PacketError A) → Triple IsValid (of_packet r) Valid
of_packet-Triple r = of_packet-keeps r (λ w v. v)

pub written-Triple :
    {A : Type 0} (r : List ℕ × Result PacketError A) → Triple IsValid (written r) Valid
unfolding written is_panic
written-Triple (p, ok a) = record { run = λ w v. v }
written-Triple (p, err e) = record { run = λ w v. (v, refl) }

pub count-Triple : (f : FlowWorkerStats → FlowWorkerStats) → Triple IsValid (count f) Valid
count-Triple f = count-keeps f (λ w s v. v)

pub expect-Triple :
    {A : Type 0} {P : FlowWorkerState → Type 0} (o : Option A) (a : A)
    → ((w : FlowWorkerState) → P w → IsValid w × (o ≡ some a))
    → Triple P (expect o) Valid
unfolding expect
expect-Triple none a h = record { run = λ w p. absurd (ground (arith, (h w p).1)) }
expect-Triple (some b) a h = record { run = λ w p. (h w p).0 }

-- ===== src/Worker/Dispatch.antt =====
-- src/flow_plane/worker.rs: `FlowDispatcher` and its bounded channels. A channel of
-- `std::sync::mpsc::sync_channel` is its queue, its capacity and whether its receiver still lives.
use new_proxy.Prelude.{
  ℕ, zero, suc, ◌+◌, Bool, true, Option, none, some, List, [], ◌∷◌, ◌++◌, length, get_elem?, set,
  leb, nat_beq, if◌then◌else◌, Result, ok, err,
}
use new_proxy.Net.{IpAddr, IoOwnerKey}
use new_proxy.Nat.Directory.{SessionLocator}
use new_proxy.Dns.Route.{SocketAddr, RemoteDomainRules}

pub data FlowMessage : Type 0 where
  intercept_ingress : IoOwnerKey → List ℕ → Option SessionLocator → FlowMessage
  tunnel_ingress : IoOwnerKey → List ℕ → SocketAddr → IpAddr → List ℕ → FlowMessage
  reload_policies : Option RemoteDomainRules → FlowMessage

pub data DispatchOutcome : Type 0 where
  accepted dropped_full dropped_disconnected invalid_worker : DispatchOutcome

pub record DispatchStats : Type 0 where
  pub channel_full_drops : ℕ
  pub channel_disconnected_drops : ℕ
  pub invalid_worker_drops : ℕ

pub data FlowChannelError : Type 0 where
  zero_workers zero_capacity : FlowChannelError

pub record Channel : Type 0 where
  pub queue : List FlowMessage
  pub capacity : ℕ
  pub connected : Bool

pub record FlowDispatcher : Type 0 where
  pub senders : List Channel
  pub counters : DispatchStats

-- `sender.try_send(message)`: the channel, and what became of the message.
unfoldable pub try_send : Channel → FlowMessage → Channel × DispatchOutcome
try_send c message =
    if c.connected
    then (if leb c.capacity (length c.queue)
        then (c, dropped_full)
        else (record c { queue = c.queue ++ message ∷ [] }, accepted))
    else (c, dropped_disconnected)

unfoldable pub count_drop : DispatchStats → DispatchOutcome → DispatchStats
count_drop s accepted = s
count_drop s dropped_full = record s { channel_full_drops = s.channel_full_drops + 1 }
count_drop s dropped_disconnected = record s {
  channel_disconnected_drops = s.channel_disconnected_drops + 1;
}
count_drop s invalid_worker = record s { invalid_worker_drops = s.invalid_worker_drops + 1 }

unfoldable pub dispatch_to : FlowDispatcher → ℕ → FlowMessage → FlowDispatcher × DispatchOutcome
dispatch_to d worker_id message = elim (get_elem? d.senders worker_id) [
  | none ↦ (record d { counters = count_drop d.counters invalid_worker }, invalid_worker)
  | some sender ↦
      let (sent, outcome) = try_send sender message in
      (
        record { senders = set d.senders worker_id sent; counters = count_drop d.counters outcome },
        outcome,
      )
]

unfoldable pub channels : ℕ → ℕ → List Channel
channels zero capacity = []
channels (suc n) capacity =
    record { queue = []; capacity = capacity; connected = true } ∷ channels n capacity

unfoldable pub bounded_flow_channels : ℕ → ℕ → Result FlowChannelError FlowDispatcher
unfolding channels
bounded_flow_channels worker_count capacity =
    if nat_beq worker_count 0
    then err zero_workers
    else if nat_beq capacity 0
    then err zero_capacity
    else ok (record {
      senders = channels worker_count capacity;
      counters = record {
        channel_full_drops = 0;
        channel_disconnected_drops = 0;
        invalid_worker_drops = 0;
      };
    })
